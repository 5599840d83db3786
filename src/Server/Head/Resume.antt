-- ===== src/Server/Head/Resume.antt =====
-- The search for the end of a line goes on where it stopped.
use lambda.Base.{
  ℕ, ◌+◌, ◌-◌, ◌<◌, ◌≤◌, false, inl, inr, ◌++◌, Option, none, ◌≡◌, ◌≢◌, ◌∙◌, refl, sym, arith,
  Bytes, ltb, length, length-append, byte_at, byte_at-append, scan, scan_agree, scan_skip,
  scan_missed, first_in, Bool-cases,
}
use lambda.Server.Head.{next_line, ends_line}

-- The search from `reader_seek` found nothing in the buffer, and a chunk was put behind it.
module _ (buf chunk : Bytes) (reader_seek : ℕ) (some_buffered : 0 < length buf)
    (seek_in : reader_seek ≤ length buf)
    (missed : first_in (ends_line buf reader_seek) reader_seek (length buf) ≡ none)
    (no_return : reader_seek ≡ length buf → byte_at buf (reader_seek - 1) ≢ 13) where
  abbrev whole : Bytes
  whole = buf ++ chunk

  abbrev last_at : ℕ
  last_at = length buf - 1

  -- No line ends before the chunk.
  buffered_missed :
      (j : ℕ) → reader_seek ≤ j → j < length buf → ends_line whole reader_seek j ≡ false
  buffered_missed j ge lt =
      let old =
        scan_missed (ends_line buf reader_seek) reader_seek (length buf - reader_seek) j missed ge
          (omega arith) in
      rw (byte_at-append buf chunk j lt, byte_at-append buf chunk (j - 1) (omega arith)) old

  agree : (j : ℕ) → length buf ≤ j → ends_line whole reader_seek j ≡ ends_line whole last_at j
  agree j ge = elim (Bool-cases (ltb reader_seek j)) [
    | inl e ↦ ground (arith, e)
    | inr e ↦
        let here : j ≡ length buf = ground (arith, e, ge, seek_in) in
        let seek_here : reader_seek ≡ length buf = ground (arith, e, ge, seek_in) in
        let old = byte_at-append buf chunk (length buf - 1) (omega arith) in
        let differs : byte_at buf (length buf - 1) ≢ 13 = rw (← seek_here) (no_return seek_here) in
        rw (here, seek_here, old) (ground (arith, differs))
  ]

  abbrev chunk_only : ℕ → Option ℕ
  chunk_only begin = scan (ends_line whole begin) (length buf) (length chunk)

  from_last : first_in (ends_line whole last_at) last_at (length whole) ≡ chunk_only last_at
  from_last =
      let size : length whole - last_at ≡ 1 + length chunk =
        omega (arith, length-append buf chunk) in
      let here : last_at + 1 ≡ length buf = omega arith in
      rw size (
        scan_skip (ends_line whole last_at) last_at 1 (length chunk)
          (λ j ge lt. ground (arith, ge, lt))
        ∙ rw here refl)

  from_seek :
      first_in (ends_line whole reader_seek) reader_seek (length whole) ≡ chunk_only reader_seek
  from_seek =
      let skipped = length buf - reader_seek in
      let size : length whole - reader_seek ≡ skipped + length chunk =
        omega (arith, length-append buf chunk) in
      let here : reader_seek + skipped ≡ length buf = omega arith in
      rw size (
        scan_skip (ends_line whole reader_seek) reader_seek skipped (length chunk)
          (λ j ge lt. buffered_missed j ge (omega arith))
        ∙ rw here refl)

  -- After a chunk has come in, searching on from the last byte that was there before finds the same
  -- end of a line as searching from the line's beginning, however the line is split, if the beginning
  -- is not the buffer's end or does not stand behind a carriage return.
  pub next_line-resumed :
      next_line whole last_at (length whole) ≡ next_line whole reader_seek (length whole)
  unfolding next_line
  next_line-resumed =
      let same =
        scan_agree (ends_line whole reader_seek) (ends_line whole last_at) (length buf)
          (length chunk) (λ j ge lt. agree j ge) in
      let found = from_last ∙ (sym same ∙ sym from_seek) in rw (found, next_line)
