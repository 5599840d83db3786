-- ===== src/Base64.antt =====
-- base64/base64.cpp: `encode`, `decode` and `valid`. The source reads its input and writes its
-- result by index, one block at a time, and no block reads another's: here a block is a clause.
pub mod Sextets
pub mod RoundTrip
pub mod Shape
mod Tests
use lambda.Base.{
  ℕ, suc, ◌+◌, ◌-◌, ◌*◌, ◌/◌, ◌%◌, ◌^◌, bit_and, bit_xor, Bool, true, false, not, ◌&&◌, ◌||◌, List,
  [], ◌∷◌, ◌++◌, Bytes, codes, ◌==◌, leb, if◌then◌else◌, length, take, drop, get_or, byte_at,
  Result, ok, err, Error, replicate, u8,
}

-- The 256 entries of `table_decode`.
unfoldable pub table_decode : List ℕ
table_decode =
    replicate 43 0
    ++ (0xF8
        ∷ 0
        ∷ 0
        ∷ 0
        ∷ 0xFC
        ∷ 0xD0
        ∷ 0xD4
        ∷ 0xD8
        ∷ 0xDC
        ∷ 0xE0
        ∷ 0xE4
        ∷ 0xE8
        ∷ 0xEC
        ∷ 0xF0
        ∷ 0xF4
        ∷ 0
        ∷ 0
        ∷ 0
        ∷ 0
        ∷ 0
        ∷ 0
        ∷ 0
        ∷ 0x00
        ∷ 0x04
        ∷ 0x08
        ∷ 0x0C
        ∷ 0x10
        ∷ 0x14
        ∷ 0x18
        ∷ 0x1C
        ∷ 0x20
        ∷ 0x24
        ∷ 0x28
        ∷ 0x2C
        ∷ 0x30
        ∷ 0x34
        ∷ 0x38
        ∷ 0x3C
        ∷ 0x40
        ∷ 0x44
        ∷ 0x48
        ∷ 0x4C
        ∷ 0x50
        ∷ 0x54
        ∷ 0x58
        ∷ 0x5C
        ∷ 0x60
        ∷ 0x64
        ∷ 0
        ∷ 0
        ∷ 0
        ∷ 0
        ∷ 0
        ∷ 0
        ∷ 0x68
        ∷ 0x6C
        ∷ 0x70
        ∷ 0x74
        ∷ 0x78
        ∷ 0x7C
        ∷ 0x80
        ∷ 0x84
        ∷ 0x88
        ∷ 0x8C
        ∷ 0x90
        ∷ 0x94
        ∷ 0x98
        ∷ 0x9C
        ∷ 0xA0
        ∷ 0xA4
        ∷ 0xA8
        ∷ 0xAC
        ∷ 0xB0
        ∷ 0xB4
        ∷ 0xB8
        ∷ 0xBC
        ∷ 0xC0
        ∷ 0xC4
        ∷ 0xC8
        ∷ 0xCC
        ∷ replicate 133 0)

unfoldable pub table_encode : List ℕ
table_encode = codes "ABCDEFGHIJKLMNOPQRSTUVWXYZabcdefghijklmnopqrstuvwxyz0123456789+/"

-- `isalnum` in the C locale, which the library never changes.
abbrev is_alnum : ℕ → Bool
is_alnum c = leb b'0' c && leb c b'9' || leb b'A' c && leb c b'Z' || leb b'a' c && leb c b'z'

unfoldable pub valid_rune : ℕ → Bool
valid_rune rune = is_alnum rune || rune == b'+' || rune == b'/' || rune == b'='

unfoldable pub valid : Bytes → Bool
unfolding valid_rune
valid [] = true
valid (rune ∷ rest) = if not (valid_rune rune) then false else valid rest

unfoldable pub dec_at : ℕ → ℕ
unfolding table_decode
dec_at c = get_or table_decode c 0

-- The macros `dec_b1`, `dec_b2` and `dec_b3`: the value stored in a `uint8_t`.
unfoldable pub dec_b1 : ℕ → ℕ → ℕ
dec_b1 byte_in byte_next = u8 (bit_xor (dec_at byte_in) (dec_at byte_next / 2 ^ 6))

unfoldable pub dec_b2 : ℕ → ℕ → ℕ
dec_b2 byte_in byte_next = u8 (bit_xor (dec_at byte_in * 2 ^ 2) (dec_at byte_next / 2 ^ 4))

unfoldable pub dec_b3 : ℕ → ℕ → ℕ
dec_b3 byte_in byte_next = u8 (bit_xor (dec_at byte_in * 2 ^ 4) (dec_at byte_next / 2 ^ 2))

-- The loop over whole blocks of four.
unfoldable pub decode_blocks : Bytes → Bytes
decode_blocks (a ∷ b ∷ c ∷ d ∷ rest) = dec_b1 a b ∷ dec_b2 b c ∷ dec_b3 c d ∷ decode_blocks rest
decode_blocks _ = []

-- `paddLength`: how many of the last two characters are `=`.
unfoldable pub padding_length : Bytes → ℕ
padding_length buf =
    (if byte_at buf (length buf - 1) == b'=' then 1 else 0)
    + (if byte_at buf (length buf - 2) == b'=' then 1 else 0)

-- The part behind the loop, for `incomplete_bytes` characters left over. The result has room for
-- one more byte only, so the second write of the cases 2 and 3 is out of bounds. With nothing left
-- over, the padding is counted; for the empty string that reads in front of it.
unfoldable pub decode_rest : Bytes → Bytes → Bytes → Result Bytes
decode_rest buf result (a ∷ b ∷ c ∷ tail) = err Error.fault
decode_rest buf result (a ∷ b ∷ []) = err Error.fault
decode_rest buf result (a ∷ []) = ok (result ++ dec_b1 a 0 ∷ [])
decode_rest buf result [] =
    if length buf == 0
    then err Error.fault
    else ok (take (length result - padding_length buf) result)

unfoldable pub decode : Bytes → Result Bytes
unfolding decode_rest
decode buf =
    let have_blocks = length buf / 4 * 4 in
    decode_rest buf (decode_blocks (take have_blocks buf)) (drop have_blocks buf)

unfoldable pub enc_at : ℕ → ℕ
unfolding table_encode
enc_at s = get_or table_encode s 0

-- The macros `enc_b1` to `enc_b4`.
unfoldable pub enc_b1 : ℕ → ℕ
enc_b1 byte_in = enc_at (bit_and (byte_in / 2 ^ 2) 0x3F)

unfoldable pub enc_b2 : ℕ → ℕ → ℕ
enc_b2 byte_in byte_next = enc_at (bit_and (bit_xor (byte_in * 2 ^ 4) (byte_next / 2 ^ 4)) 0x3F)

unfoldable pub enc_b3 : ℕ → ℕ → ℕ
enc_b3 byte_in byte_next = enc_at (bit_and (bit_xor (byte_in * 2 ^ 2) (byte_next / 2 ^ 6)) 0x3F)

unfoldable pub enc_b4 : ℕ → ℕ
enc_b4 byte_next = enc_at (bit_and byte_next 0x3F)

-- The loop over whole blocks of three, and the last block, filled up with `=`.
unfoldable pub encode : Bytes → Bytes
encode (a ∷ b ∷ c ∷ rest) = enc_b1 a ∷ enc_b2 a b ∷ enc_b3 b c ∷ enc_b4 c ∷ encode rest
encode (a ∷ b ∷ []) = enc_b1 a ∷ enc_b2 a b ∷ enc_b3 b 0 ∷ b'=' ∷ []
encode (a ∷ []) = enc_b1 a ∷ enc_b2 a 0 ∷ b'=' ∷ b'=' ∷ []
encode [] = []
