-- ===== src/Server/Writer/Bodies.antt =====
-- Bodies that are written in pieces.
use lambda.Base.{
  ℕ, ◌+◌, ◌≤◌, inl, inr, List, [], ◌∷◌, ◌++◌, append_assoc, append-nil, none, some, ◌≡◌, ◌∙◌, refl,
  sym, ap, arith, Bytes, leb, length, length-append, Bool-cases, Result, ok, ◌>>=◌, >>=-eq-ok,
}
use lambda.Net.Conn.{write}
use lambda.Server.Writer.{ResponseWriter, write_announced, write_body}
use lambda.Server.Writer.Wire.{IsOver, write_announced-SendsPart}

-- One write for each piece, and the number of all bytes written.
unfoldable pub write_bodies : ResponseWriter → List Bytes → Result (ℕ × ResponseWriter)
write_bodies w [] = ok (0, w)
write_bodies w (chunk ∷ chunks) = write_body w chunk >>= λ first.
    write_bodies first.1 chunks >>= λ rest. ok (first.0 + rest.0, rest.1)

abbrev pub flatten : List Bytes → Bytes
flatten [] = []
flatten (chunk ∷ chunks) = chunk ++ flatten chunks

abbrev pub HasAnnounced : ResponseWriter → ℕ → Type 0
HasAnnounced w announced = (w.deferred ≡ none) × (w.announced ≡ some announced)

write_over :
    (w w' : ResponseWriter) (announced : ℕ) (chunk : Bytes) (n : ℕ)
    → IsOver w announced
    → write_announced w announced chunk ≡ ok (n, w')
    → (w' ≡ w) × (n ≡ 0)
unfolding write_announced write
write_over w w' announced chunk n over h = elim (Bool-cases (leb announced w.body_written)) [
  | inl full ↦ (ground (arith, full, h), ground (arith, full, h))
  | inr room ↦ elim over [
    | inl full ↦ absurd (ground (arith, full, room))
    | inr closed ↦ absurd (ground (arith, closed, room, h))
  ]
]

-- The first piece, and the others.
write_bodies_step :
    (chunk : Bytes) (chunks : List Bytes) (w w' : ResponseWriter) (announced n : ℕ)
    → HasAnnounced w announced
    → write_bodies w (chunk ∷ chunks) ≡ ok (n, w')
    → (k m : ℕ) × (mid : ResponseWriter) × (write_announced w announced chunk ≡ ok (k, mid))
      × (write_bodies mid chunks ≡ ok (m, w'))
      × (n ≡ k + m)
unfolding write_bodies write_body
write_bodies_step chunk chunks w w' announced n has h =
    let (first, e, later) =
      >>=-eq-ok (write_body w chunk)
        (λ first. write_bodies first.1 chunks >>= λ rest. ok (first.0 + rest.0, rest.1)) h in
    let (rest, e', end) =
      >>=-eq-ok (write_bodies first.1 chunks) (λ rest. ok (first.0 + rest.0, rest.1)) later in
    (first.0, rest.0, first.1, ground (arith, e, has), ground (arith, e', end), ground (arith, end))

-- Pieces that are written when the body is over put nothing on the wire.
write_bodies_over :
    (chunks : List Bytes) (w w' : ResponseWriter) (announced n : ℕ)
    → HasAnnounced w announced
    → IsOver w announced
    → write_bodies w chunks ≡ ok (n, w')
    → w' ≡ w
unfolding write_bodies
write_bodies_over [] w w' announced n has over h = ground (arith, h)
write_bodies_over (chunk ∷ chunks) w w' announced n has over h =
    let (k, m, mid, e, later, size) = write_bodies_step chunk chunks w w' announced n has h in
    let (same, zero_sent) = write_over w mid announced chunk k over e in
    let later' : write_bodies w chunks ≡ ok (m, w') = rw (← same) later in
    write_bodies_over chunks w w' announced m has over later'

-- However a body is written in pieces to a response with an announced length, what is put on the
-- wire is a beginning of the text of the pieces, and together with what was written before it is
-- no longer than announced, if that was not. This holds of every run that does not throw, also if
-- the peer goes away.
pub write_bodies_announced :
    (chunks : List Bytes) (w w' : ResponseWriter) (announced n : ℕ)
    → HasAnnounced w announced
    → w.body_written ≤ announced
    → write_bodies w chunks ≡ ok (n, w')
    → (sent unsent : Bytes) × (flatten chunks ≡ sent ++ unsent)
      × (w'.io.conn.sent ≡ w.io.conn.sent ++ sent)
      × (w.body_written + length sent ≤ announced)
unfolding write_bodies
write_bodies_announced [] w w' announced n has le h =
    ([], [], refl, ground (arith, h, append-nil w.io.conn.sent), omega arith)
write_bodies_announced (chunk ∷ chunks) w w' announced n has le h =
    let (k, m, mid, e, later, size) = write_bodies_step chunk chunks w w' announced n has h in
    let ((sent, unsent, split, sends, why), bound) =
      write_announced-SendsPart w mid announced chunk k le e in
    let has' : HasAnnounced mid announced = (sends.4 ∙ has.0, sends.3 ∙ has.1) in
    elim why [
      | inl all_sent ↦
          let (sent', unsent', split', wire', bound') =
            write_bodies_announced chunks mid w' announced m has' bound later in
          let whole : chunk ≡ sent = split ∙ (ap (◌++◌ sent) all_sent ∙ append-nil sent) in
          (
            sent ++ sent',
            unsent',
            ap (λ t. t ++ flatten chunks) whole
                ∙ (ap (◌++◌ sent) split' ∙ sym (append_assoc sent sent' unsent')),
            wire' ∙ (ap (λ t. t ++ sent') sends.0 ∙ append_assoc w.io.conn.sent sent sent'),
            omega (arith, bound', sends.1, sends.2, length-append sent sent'),
          )
      | inr over ↦
          let same = write_bodies_over chunks mid w' announced m has' over later in
          (
            sent,
            unsent ++ flatten chunks,
            ap (λ t. t ++ flatten chunks) split ∙ append_assoc sent unsent (flatten chunks),
            ap (λ v. v.io.conn.sent) same ∙ sends.0,
            omega (arith, bound, sends.1, sends.2),
          )
    ]
