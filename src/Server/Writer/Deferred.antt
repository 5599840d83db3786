-- ===== src/Server/Writer/Deferred.antt =====
-- Responses that are held back until their length is known.
use lambda.Base.{
  ℕ, ◌+◌, ◌<◌, ◌^◌, true, false, List, [], ◌∷◌, ◌++◌, append_assoc, append-nil, some, ◌≡◌, ◌∙◌,
  refl, ap, arith, Bytes, codes, length, length-append, is_empty, equal_self, ok, ◌>>=◌,
}
use lambda.Base.Decimal.{to_decimal}
use lambda.Base.Decimal.RoundTrip.{digits_head, strtoul-to_decimal}
use lambda.Dict.Laws.{find-put}
use lambda.Http.Trim.{reset_case, trim_space, is_space}
use lambda.Http.Values.{Values, get, set}
use lambda.Net.Conn.{Conn, write, transmit}
use lambda.Server.Head.{content_length}
use lambda.Server.Status.{table_status}
use lambda.Server.Writer.{
  ResponseWriter, DeferredResponse, head_texts, write_texts, write_head, write_body, flush,
  flush_deferred, with_conn,
}
use lambda.Server.Writer.Bodies.{write_bodies, flatten}

normal_name : reset_case (codes "content-length") ≡ codes "content-length"
unfolding reset_case trim_space is_space
normal_name = refl

get-set_length :
    (headers : Values) (value : Bytes)
    → get (set headers (codes "content-length") value) (codes "content-length") ≡ value
unfolding get set
get-set_length headers value =
    rw
      (
        normal_name,
        find-put (codes "content-length") (codes "content-length") (value ∷ []) headers,
        equal_self (codes "content-length"),
      )
      refl

pub to_decimal-full : (n : ℕ) → is_empty (to_decimal n) ≡ false
unfolding to_decimal
to_decimal-full n = let (c, cs, e) = digits_head n n in rw e refl

-- The length that a response announces is the one that a reader of its head takes from it.
pub content_length-set :
    (headers : Values) (n : ℕ)
    → n < 2 ^ 64
    → content_length (set headers (codes "content-length") (to_decimal n)) ≡ some n
unfolding content_length
content_length-set headers n lt =
    rw (get-set_length headers (to_decimal n), (strtoul-to_decimal n lt).0)
      (ground (arith, to_decimal-full n))

-- A connection on which every write is taken as a whole.
abbrev pub IsReliable : Conn → Type 0
IsReliable c = (c.is_open ≡ true) × (c.outcomes ≡ [])

abbrev pub with_sent : Conn → Bytes → Conn
with_sent c text = record c { sent = c.sent ++ text }

pub write_reliable :
    (c : Conn) (text : Bytes) → IsReliable c → write c text ≡ ok (length text, with_sent c text)
unfolding write transmit
write_reliable c text h = ground (arith, h)

pub write_texts_reliable :
    (texts : List Bytes) (c : Conn)
    → IsReliable c
    → write_texts c texts ≡ ok (length (flatten texts), with_sent c (flatten texts))
unfolding write_texts
write_texts_reliable [] c h = ground (arith, append-nil c.sent)
write_texts_reliable (text ∷ texts) c h =
    rw
      (
        write_reliable c text h,
        write_texts_reliable texts (with_sent c text) h,
        append_assoc c.sent text (flatten texts),
      )
      (ground (arith, length-append text (flatten texts)))

-- The pieces are put behind the deferred body.
write_bodies_deferred :
    (chunks : List Bytes) (w : ResponseWriter) (d : DeferredResponse)
    → w.deferred ≡ some d
    → write_bodies w chunks
      ≡ ok (
        length (flatten chunks),
        record w { deferred = some (record d { body = d.body ++ flatten chunks }) },
      )
unfolding write_bodies write_body
write_bodies_deferred [] w d h = ground (arith, h, append-nil d.body)
write_bodies_deferred (chunk ∷ chunks) w d h =
    let d' = record d { body = d.body ++ chunk } in
    rw (h, write_bodies_deferred chunks (record w { deferred = some d' }) d' refl)
      (ground
        (arith, append_assoc d.body chunk (flatten chunks), length-append chunk (flatten chunks)))

-- The headers of a deferred response, once its length is known.
abbrev pub with_length : DeferredResponse → Values
with_length d = set d.headers (codes "content-length") (to_decimal (length d.body))

module _ (w : ResponseWriter) (d : DeferredResponse) (text : Bytes)
    (reliable : IsReliable w.io.conn) (known : table_status d.status ≡ some text) where
  abbrev message : Bytes
  message = flatten (head_texts d.status text (with_length d)) ++ d.body

  write_head_reliable : write_head w.io.conn d.status (with_length d) ≡ (
      let head = flatten (head_texts d.status text (with_length d)) in
      ok (length head, with_sent w.io.conn head))
  unfolding write_head
  write_head_reliable = rw (
    known,
    write_head,
    write_texts_reliable (head_texts d.status text (with_length d)) w.io.conn reliable,
  )

  flush_deferred_reliable :
      (n : ℕ) × (w' : ResponseWriter) × (flush_deferred w d ≡ ok (n, w'))
      × (w'.io ≡ record w.io { conn = with_sent w.io.conn message })
  unfolding flush_deferred
  flush_deferred_reliable =
      let head = flatten (head_texts d.status text (with_length d)) in
      let c = with_sent w.io.conn head in
      let done = record w { deferred = some (record d { headers = with_length d }) } in
      (
        length head + length d.body,
        with_conn done (with_sent c d.body),
        rw (write_head_reliable, write_reliable c d.body reliable),
        ap (λ t. record w.io { conn = record w.io.conn { sent = t } })
            (append_assoc w.io.conn.sent head d.body),
      )

flush_lem :
    (w : ResponseWriter) (d : DeferredResponse)
    → w.io.conn.is_open ≡ true
    → w.header_written ≡ true
    → w.deferred ≡ some d
    → flush w ≡ flush_deferred w d
unfolding flush
flush_lem w d open_ written deferred = ground (arith, open_, written, deferred)

-- A response without a length is sent as one message when it ends, for any pieces of its body: a
-- head that announces the length of the whole body, then the body, and the reader of such a head
-- takes that length from it; nothing else of the connection and of the stream changes. The response is deferred with a status that the table of statuses
-- has, the connection is open and takes every write as a whole, and the length fits into 64 bits.
pub flush_deferred-message :
    (chunks : List Bytes) (w : ResponseWriter) (d : DeferredResponse) (text : Bytes)
    → IsReliable w.io.conn
    → w.header_written ≡ true
    → w.deferred ≡ some d
    → table_status d.status ≡ some text
    → length (d.body ++ flatten chunks) < 2 ^ 64
    → (n : ℕ) × (w' : ResponseWriter) × (headers : Values) × ((write_bodies w chunks >>= λ written.
          flush written.1)
        ≡ ok (n, w'))
      × (w'.io ≡ record w.io {
        conn =
            with_sent w.io.conn
              (flatten (head_texts d.status text headers) ++ (d.body ++ flatten chunks));
      })
      × (content_length headers ≡ some (length (d.body ++ flatten chunks)))
flush_deferred-message chunks w d text reliable written deferred known lt =
    let d' = record d { body = d.body ++ flatten chunks } in
    let w' = record w { deferred = some d' } in
    let (n, done, e, wire) = flush_deferred_reliable w' d' text reliable known in
    (
      n,
      done,
      with_length d',
      rw (write_bodies_deferred chunks w d deferred) (flush_lem w' d' reliable.0 written refl ∙ e),
      wire,
      content_length-set d.headers (length (d.body ++ flatten chunks)) lt,
    )
