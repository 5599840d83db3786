-- ===== src/Json/Walk/Cuts.antt =====
-- json/parse.cpp: where get_object_entries cuts a list of parts.
use lambda.Base.{
  ℕ, suc, ◌+◌, [], ◌∷◌, ◌++◌, append_assoc, ◌≡◌, ◌∙◌, refl, ap, arith, Bytes, byte_at-drop, drop,
  length, length-append,
}
use lambda.Json.Entries.{split_entries, no_scopes}
use lambda.Json.Parse.{}
use lambda.Json.Plain.{}
use lambda.Json.Walk.{Walk, drop-length, next_scopes-quiet}

-- A comma between two parts at the top of a range.
split_entries_comma :
    (buf : Bytes) (begin left idx entry_begin : ℕ) (rest : Bytes)
    → drop idx buf ≡ b',' ∷ rest
    → split_entries buf begin (suc left) idx entry_begin no_scopes
      ≡ (entry_begin, idx) ∷ split_entries buf begin left (idx + 1) (idx + 1) no_scopes
unfolding split_entries
split_entries_comma buf begin left idx entry_begin rest at =
    let here = byte_at-drop buf idx b',' rest at in
    rw (split_entries, next_scopes-quiet buf begin no_scopes idx b',' here refl, here) refl

module _ (buf : Bytes) (begin : ℕ) (text : Bytes)
    (walk : Walk buf begin text no_scopes no_scopes) where
  -- The last part of a range, and one before a comma.
  pub split_entries_last :
      (i : ℕ) (rest : Bytes)
      → drop i buf ≡ text ++ rest
      → split_entries buf begin (length text) i i no_scopes ≡ (i, i + length text) ∷ []
  unfolding split_entries
  split_entries_last i rest at =
      let e : length text ≡ length text + 0 = omega arith in
      ap (λ n. split_entries buf begin n i i no_scopes) e ∙ walk 0 i i rest at

  pub split_entries_next :
      (i : ℕ) (more rest : Bytes)
      → drop i buf ≡ (text ++ b',' ∷ more) ++ rest
      → split_entries buf begin (length (text ++ b',' ∷ more)) i i no_scopes
        ≡ (i, i + length text)
          ∷ split_entries buf begin
              (length more)
              (i + length text + 1)
              (i + length text + 1)
              no_scopes
  split_entries_next i more rest at =
      let e : length (text ++ b',' ∷ more) ≡ length text + suc (length more) =
        length-append text (b',' ∷ more) in
      let here = at ∙ append_assoc text (b',' ∷ more) rest in
      rw e (
        walk (suc (length more)) i i (b',' ∷ more ++ rest) here
        ∙ split_entries_comma buf begin (length more) (i + length text) i (more ++ rest)
            (drop-length buf i text (b',' ∷ more ++ rest) here))
