-- ===== src/Server/Writer/Wire.antt =====
-- What a response puts on the wire.
use lambda.Base.{
  ℕ, ◌+◌, ◌-◌, ◌≤◌, false, ◌⊎◌, inl, inr, [], ◌++◌, append-nil, ◌≡◌, refl, sym, arith, Bytes, ltb,
  leb, length, take, drop, take-append-drop, length-take, Bool-cases, Result, ok, err,
}
use lambda.Net.Conn.{Conn, write}
use lambda.Net.Conn.Laws.{write_lem}
use lambda.Server.Writer.{ResponseWriter, write_announced, send_body}

-- `sent` is what was put on the wire as a part of the body.
abbrev pub Sends : ResponseWriter → Bytes → ℕ → ResponseWriter → Type 0
Sends w sent n w' =
    (w'.io.conn.sent ≡ w.io.conn.sent ++ sent)
    × (length sent ≡ n)
    × (w'.body_written ≡ w.body_written + n)
    × (w'.announced ≡ w.announced)
    × (w'.deferred ≡ w.deferred)

send_body-Sends :
    (w w' : ResponseWriter) (chunk : Bytes) (n : ℕ)
    → send_body w chunk ≡ ok (n, w')
    → Sends w chunk n w' ⊎ (Sends w [] n w' × (w'.io.conn.is_open ≡ false))
send_body-Sends w w' chunk n h = go (write w.io.conn chunk) refl
  where
    go :
        (r : Result (ℕ × Conn))
        → write w.io.conn chunk ≡ r
        → Sends w chunk n w' ⊎ (Sends w [] n w' × (w'.io.conn.is_open ≡ false))
    go (ok (k, c)) e = elim (write_lem w.io.conn chunk k c e) [
      | inl (count, wire, open_) ↦ inl (ground (arith, e, h, wire, count))
      | inr (count, wire, closed) ↦ inr (
        ground (arith, e, h, wire, count, append-nil w.io.conn.sent),
        ground (arith, e, h, closed),
      )
    ]
    go (err x) e = absurd (ground (arith, e, h))

-- Why a write may leave out a part of its chunk: the length is used up, or the peer is gone.
abbrev pub IsOver : ResponseWriter → ℕ → Type 0
IsOver w announced = (announced ≤ w.body_written) ⊎ (w.io.conn.is_open ≡ false)

-- A write of a beginning of the chunk, and of less than all of it only where the body is over.
abbrev pub SendsPart : ResponseWriter → ℕ → Bytes → ℕ → ResponseWriter → Type 0
SendsPart w announced chunk n w' =
    (sent : Bytes) × (unsent : Bytes) × (chunk ≡ sent ++ unsent)
    × Sends w sent n w'
    × ((unsent ≡ []) ⊎ IsOver w' announced)

sends_part :
    (w w' : ResponseWriter) (announced : ℕ) (chunk sent unsent : Bytes) (n : ℕ)
    → chunk ≡ sent ++ unsent
    → send_body w sent ≡ ok (n, w')
    → w.body_written + length sent ≤ announced
    → (unsent ≡ []) ⊎ (w.body_written + length sent ≡ announced)
    → SendsPart w announced chunk n w' × (w'.body_written ≤ announced)
sends_part w w' announced chunk sent unsent n e h le why = elim (send_body-Sends w w' sent n h) [
  | inl all_sent ↦ (
    (
      sent,
      unsent,
      e,
      all_sent,
      elim why [ inl nothing ↦ inl nothing | inr full ↦ inr (inl (omega (arith, all_sent))) ],
    ),
    omega (arith, all_sent),
  )
  | inr (none_sent, closed) ↦
      (([], chunk, refl, none_sent, inr (inr closed)), omega (arith, none_sent))
]

pub write_announced-SendsPart :
    (w w' : ResponseWriter) (announced : ℕ) (chunk : Bytes) (n : ℕ)
    → w.body_written ≤ announced
    → write_announced w announced chunk ≡ ok (n, w')
    → SendsPart w announced chunk n w' × (w'.body_written ≤ announced)
unfolding write_announced
write_announced-SendsPart w w' announced chunk n le h =
    let can_write = announced - w.body_written in
    elim (Bool-cases (leb announced w.body_written)) [
      | inl full ↦ (
        (
          [],
          chunk,
          refl,
          ground (arith, full, h, append-nil w.io.conn.sent),
          inr (inl (ground (arith, full, h))),
        ),
        ground (arith, full, h, le),
      )
      | inr room ↦ elim (Bool-cases (ltb can_write (length chunk))) [
        | inl cut ↦
            let split = sym (take-append-drop can_write chunk) in
            let size = length-take can_write chunk in
            sends_part w w' announced chunk (take can_write chunk) (drop can_write chunk) n split
              (ground (arith, room, cut, h)) (ground (arith, room, cut, size))
              (inr (ground (arith, room, cut, size)))
        | inr fits ↦
            sends_part w w' announced chunk chunk [] n (sym (append-nil chunk))
              (ground (arith, room, fits, h)) (ground (arith, room, fits)) (inl refl)
      ]
    ]
