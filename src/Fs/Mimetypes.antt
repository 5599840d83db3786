-- ===== src/Fs/Mimetypes.antt =====
-- fs/mimetypes.cpp: `infer_mimetype`. The table of types is data of another project, and an argument.
use lambda.Base.{
  ℕ, zero, suc, ◌+◌, ◌-◌, Option, none, some, Bytes, codes, leb, ◌==◌, if◌then◌else◌, byte_at,
  length, drop,
}

-- The loop from the end down: the last dot among the first `left` runes.
unfoldable pub last_dot : Bytes → ℕ → Option ℕ
last_dot filename zero = none
last_dot filename (suc left) =
    let before = last_dot filename left in
    if byte_at filename left == b'.' then some left else before

abbrev pub fallback_type : Bytes
fallback_type = codes "application/octet-stream"

abbrev or_fallback : Option Bytes → Bytes
or_fallback none = fallback_type
or_fallback (some type_) = type_

unfoldable pub infer_mimetype : (Bytes → Option Bytes) → Bytes → Bytes
unfolding last_dot
infer_mimetype mimetype_map filename = elim (last_dot filename (length filename)) [
  | none ↦ fallback_type
  | some dot_pos ↦
      if leb (length filename - 1) dot_pos
      then fallback_type
      else or_fallback (mimetype_map (drop (dot_pos + 1) filename))
]
