-- ===== src/Http/Search/RoundTrip.antt =====
-- A query is read as it was written.
use lambda.Base.{
  ℕ, false, suc, ◌+◌, ◌<◌, List, [], ◌∷◌, ◌++◌, append_assoc, append-nil, ◌≡◌, ◌∙◌, refl, ap, arith,
  Bytes, All, All-append, Lacks, ◌==◌, length, length-append, drop, drop-suc, drop_past, ok,
}
use lambda.Http.Uri.{encode_uri_component}
use lambda.Http.Values.{Values, append, entries}
use lambda.Http.Values.Laws.{IsValid}
use lambda.Http.Values.Entries.{appended, appended-entries_nil}
use lambda.Http.Search.{parse_token, parse_pairs, parse_params, join_entries, params_to_string}
use lambda.Http.Search.Loop.{
  IsText, pair_text, encode-Lacks, parse_pairs_to, parse_pairs_last, parse_token_written,
}

-- The pairs behind the first.
abbrev tail_text : List (Bytes × Bytes) → Bytes
tail_text [] = []
tail_text (e ∷ es) = b'&' ∷ (pair_text e ++ tail_text es)

abbrev IsPair : Bytes × Bytes → Type 0
IsPair e = IsText e.0 × IsText e.1

join_entries-tail :
    (es : List (Bytes × Bytes)) (x : ℕ) (search : Bytes)
    → join_entries (x ∷ search) es ≡ (x ∷ search) ++ tail_text es
unfolding join_entries
join_entries-tail [] x search = rw (append-nil search) refl
join_entries-tail ((key, value) ∷ es) x search =
    let text =
      search ++ b'&' ∷ [] ++ encode_uri_component key ++ b'=' ∷ [] ++ encode_uri_component value in
    join_entries-tail es x text ∙ ap (◌∷◌ x) (simp append_assoc refl)

join_entries-full :
    (es : List (Bytes × Bytes)) (search : Bytes)
    → 0 < length search
    → join_entries search es ≡ search ++ tail_text es
join_entries-full es [] h = absurd (omega arith)
join_entries-full es (x ∷ search) h = join_entries-tail es x search

pair_text-Lacks : (e : Bytes × Bytes) → IsPair e → Lacks b'&' (pair_text e)
pair_text-Lacks (key, value) (k, v) =
    All-append (λ c. (c == b'&') ≡ false) (encode_uri_component key)
      (b'=' ∷ encode_uri_component value) (encode-Lacks b'&' key refl k.0)
      (refl, encode-Lacks b'&' value refl v.0)

pair_text-long : (e : Bytes × Bytes) → 0 < length (pair_text e)
pair_text-long (key, value) =
    omega (arith, length-append (encode_uri_component key) (b'=' ∷ encode_uri_component value))

module _ (params : Bytes) where
  last_pair :
      (xs : Bytes) (i : ℕ) (m : Values)
      → 0 < length xs
      → drop i params ≡ xs
      → Lacks b'&' xs
      → parse_pairs params (length xs) i i m ≡ parse_token params m i (length params)
  last_pair [] i m long at h = absurd (omega arith)
  last_pair (x ∷ xs) i m long at h = parse_pairs_last params x xs i i m at h

  parse_pairs-appended :
      (e : Bytes × Bytes) (es : List (Bytes × Bytes)) (i left : ℕ) (m : Values)
      → IsPair e
      → All IsPair es
      → drop i params ≡ pair_text e ++ tail_text es
      → left ≡ length (pair_text e ++ tail_text es)
      → length params ≡ i + left
      → parse_pairs params left i i m ≡ ok (appended m (e ∷ es))
  parse_pairs-appended e [] i left m h hs at l size =
      let text = pair_text e in
      let alone : drop i params ≡ text = at ∙ append-nil text in
      let long : left ≡ length text = l ∙ ap length (append-nil text) in
      rw long (
        last_pair text i m (pair_text-long e) alone (pair_text-Lacks e h)
        ∙ parse_token_written params e.0 e.1 [] i (length params) m h.0 h.1 at
            (omega (arith, size, long)))
  parse_pairs-appended e (f ∷ es) i left m h hs at l size =
      let text = pair_text e in
      let rest = pair_text f ++ tail_text es in
      let behind = i + length text + 1 in
      let long : left ≡ suc (length text + length rest) =
        l ∙ length-append text (b'&' ∷ rest) ∙ omega arith in
      let one : parse_token params m i (i + length text) ≡ ok (append m e.0 e.1) =
        parse_token_written params e.0 e.1 (b'&' ∷ rest) i (i + length text) m h.0 h.1 at refl in
      let after : drop behind params ≡ rest =
        drop-suc params (i + length text) b'&' rest
          (drop_past params i (i + length text) text (b'&' ∷ rest) at refl) in
      rw long (
        parse_pairs_to params text i i rest m at (pair_text-Lacks e h)
        ∙ rw one (
            parse_pairs-appended f es behind (length rest) (append m e.0 e.1) hs.0 hs.1 after refl
              (omega (arith, size, long))))

parse_params-join_entries :
    (es : List (Bytes × Bytes))
    → All IsPair es
    → parse_params (join_entries [] es) ≡ ok (appended [] es)
unfolding parse_params
parse_params-join_entries [] h = unfold join_entries parse_pairs in refl
parse_params-join_entries ((key, value) ∷ es) h =
    let text = pair_text (key, value) in
    let query = text ++ tail_text es in
    let begun : encode_uri_component key ++ b'=' ∷ [] ++ encode_uri_component value ≡ text =
      append_assoc (encode_uri_component key) (b'=' ∷ []) (encode_uri_component value) in
    let written : join_entries [] ((key, value) ∷ es) ≡ query =
      unfold join_entries in
      ap (λ t. join_entries t es) begun ∙ join_entries-full es text (pair_text-long (key, value)) in
    rw written (
      parse_pairs-appended query (key, value) es 0 (length query) [] h.0 h.1 refl refl
        (omega arith))

-- The query that a container is written to is read as this container, if no name and no value in it is
-- empty. That holds for every byte in them: what delimits the parts of a query is escaped.
pub parse_params-params_to_string :
    (m : Values) → IsValid m → All IsPair (entries m) → parse_params (params_to_string m) ≡ ok m
unfolding params_to_string
parse_params-params_to_string m valid h =
    parse_params-join_entries (entries m) h ∙ ap ok (appended-entries_nil m valid)
