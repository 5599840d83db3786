-- ===== src/Server/Writer/Announced.antt =====
-- Responses whose head tells their length, written at once.
use lambda.Base.{ℕ, ◌<◌, ◌^◌, none, some, ◌≡◌, refl, arith, Bytes, codes, length, ok}
use lambda.Base.Decimal.{to_decimal}
use lambda.Base.Decimal.RoundTrip.{strtoul-to_decimal}
use lambda.Http.Values.{Values, get}
use lambda.Net.Conn.{Conn}
use lambda.Server.Head.{content_length}
use lambda.Server.Status.{Status, table_status}
use lambda.Server.Writer.{
  ResponseWriter, head_texts, write_head, write_body, write_announced, start_response,
}
use lambda.Server.Writer.Bodies.{flatten}
use lambda.Server.Writer.Deferred.{
  IsReliable, with_sent, write_reliable, write_texts_reliable, to_decimal-full,
}

-- A length that a head has as text.
pub content_length-to_decimal :
    (headers : Values) (n : ℕ)
    → get headers (codes "content-length") ≡ to_decimal n
    → n < 2 ^ 64
    → content_length headers ≡ some n
unfolding content_length
content_length-to_decimal headers n e lt =
    rw (e, (strtoul-to_decimal n lt).0) (ground (arith, to_decimal-full n))

module _ (status : Status) (text : Bytes) (known : table_status status ≡ some text) where
  write_head_whole :
      (c : Conn) (headers : Values)
      → IsReliable c
      → (let head = flatten (head_texts status text headers) in
          write_head c status headers ≡ ok (length head, with_sent c head))
  unfolding write_head
  write_head_whole c headers reliable =
      rw (known, write_head, write_texts_reliable (head_texts status text headers) c reliable)

  pub start_response_announced :
      (w : ResponseWriter) (n : ℕ)
      → IsReliable w.io.conn
      → get w.headers (codes "content-length") ≡ to_decimal n
      → n < 2 ^ 64
      → (let head = flatten (head_texts status text w.headers) in
          start_response status w
          ≡ ok (
            length head,
            record w { announced = some n; io = record w.io { conn = with_sent w.io.conn head } },
          ))
  unfolding start_response
  start_response_announced w n reliable told fits =
      rw (told, to_decimal-full n, (strtoul-to_decimal n fits).1)
        (rw (write_head_whole w.io.conn w.headers reliable) refl)

pub write_body_announced :
    (w : ResponseWriter) (body : Bytes)
    → IsReliable w.io.conn
    → w.body_written ≡ 0
    → w.deferred ≡ none
    → w.announced ≡ some (length body)
    → 0 < length body
    → write_body w body
      ≡ ok (
        length body,
        record w {
          io = record w.io { conn = with_sent w.io.conn body };
          body_written = length body;
        },
      )
unfolding write_body write_announced
write_body_announced w body reliable unsent direct told long =
    ground (arith, unsent, direct, told, long, write_reliable w.io.conn body reliable)
