-- ===== src/Server/Bind.antt =====
-- server/server.cpp: parse_bind_addr.
pub mod Octets
use lambda.Base.{
  ℕ, zero, suc, ◌+◌, ◌-◌, Bool, true, false, not, ◌&&◌, ◌||◌, [], ◌∷◌, ◌++◌, Option, none, some,
  Bytes, codes, leb, ◌==◌, if◌then◌else◌, byte_at, substr, drop, length, is_empty, Result, ok, err,
  Error, ◌>>=◌,
}
use lambda.Base.Decimal.{is_digit}
use lambda.Base.Integers.{ℤ, pos, negsuc, stol}

-- `rune >= '0' && rune <= '9' || rune == '.'` of every rune.
unfoldable pub has_plain_runes : Bytes → Bool
has_plain_runes [] = true
has_plain_runes (rune ∷ addr) = (is_digit rune || rune == b'.') && has_plain_runes addr

-- A number of a segment, -1 where there is none.
abbrev in_octet : Result ℤ → Bool
in_octet (ok (pos n)) = leb n 255
in_octet (ok (negsuc n)) = false
in_octet (err e) = false

-- `std::stoll` reads the same type as `std::stol` on 64-bit systems.
unfoldable pub is_segment : Bytes → Bool
is_segment token = in_octet (stol token)

-- The loop over the runes: the segments that end in a dot are tested and counted.
unfoldable pub segments : Bytes → ℕ → ℕ → ℕ → ℕ → Result (ℕ × ℕ)
unfolding is_segment
segments addr zero idx segment_begin count = ok (segment_begin, count)
segments addr (suc left) idx segment_begin count =
    let dot = byte_at addr idx == b'.' in
    let rest =
      segments addr left (idx + 1) (if dot then idx + 1 else segment_begin)
        (if dot then count + 1 else count) in
    if dot && not (is_segment (substr addr segment_begin (idx - segment_begin)))
    then err Error.bind_address_invalid
    else rest

unfoldable pub parse_bind_addr : Bytes → Result Bytes
unfolding has_plain_runes segments
parse_bind_addr addr =
    if is_empty addr
    then ok (codes "0.0.0.0")
    else if not (has_plain_runes addr)
    then err Error.bind_address_invalid
    else segments addr (length addr) 0 0 0 >>= λ last.
        if not (is_segment (drop last.0 addr))
        then err Error.bind_address_invalid
        else if not (last.1 == 3)
        then err Error.bind_address_invalid
        else ok addr
