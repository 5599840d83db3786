-- ===== src/Http/Auth/Laws.antt =====
-- Credentials written in the `Basic` scheme are read back.
use lambda.Base.{
  ℕ, zero, suc, ◌+◌, ◌-◌, ◌<◌, true, false, [], ◌∷◌, ◌++◌, map, none, some, ◌≡◌, ◌≢◌, ◌∙◌, refl, ap,
  arith, Bytes, IsBytes, All-append, codes, ◌==◌, length, length-append, drop, take-append,
  byte_at-drop, drop-suc, drop-append_cons, is_empty-append_cons, is_empty, equal_self, scan_hit,
  Lacks, ok, ◌>>=◌,
}
use lambda.Base64.{encode, decode, valid, valid_rune}
use lambda.Base64.Shape.{encode_shape, decode-encode, encode-ne-nil}
use lambda.Http.Trim.{lower_rune}
use lambda.Http.Auth.{find_token, split_pair, parse_basic_token, parse_basic_auth}

find_token_second :
    (header : Bytes) (left idx e t : ℕ) (rest : Bytes)
    → drop idx header ≡ t ∷ rest
    → (t == b' ') ≡ false
    → 0 < left
    → find_token header left idx (some e) ≡ (some e, some idx)
unfolding find_token
find_token_second header zero idx e t rest at h lt = absurd (omega arith)
find_token_second header (suc left) idx e t rest at h lt = rw (byte_at-drop header idx t rest at, h)

find_token_first :
    (scheme header : Bytes) (left idx t : ℕ) (rest : Bytes)
    → drop idx header ≡ scheme ++ b' ' ∷ t ∷ rest
    → Lacks b' ' scheme
    → (t == b' ') ≡ false
    → suc (length scheme) < left
    → find_token header left idx none ≡ (some (idx + length scheme), some (idx + length scheme + 1))
unfolding find_token
find_token_first scheme header zero idx t rest at skip h lt = absurd (omega arith)
find_token_first [] header (suc left) idx t rest at skip h lt =
    rw (byte_at-drop header idx b' ' (t ∷ rest) at) (
      find_token_second header left (idx + 1) idx t rest (drop-suc header idx b' ' (t ∷ rest) at) h
        (omega arith)
      ∙ (let e : idx ≡ idx + 0 = omega arith in rw (← e)))
find_token_first (x ∷ scheme) header (suc left) idx t rest at skip h lt =
    let more = scheme ++ b' ' ∷ t ∷ rest in
    let e : idx + 1 + length scheme ≡ idx + length (x ∷ scheme) = omega arith in
    rw (byte_at-drop header idx x more at, skip.0)
      (rw (← e) (
        find_token_first scheme header left (idx + 1) t rest (drop-suc header idx x more at) skip.1
          h (omega arith)))

valid_head : (t : ℕ) (rest : Bytes) → valid (t ∷ rest) ≡ true → (t == b' ') ≡ false
unfolding valid valid_rune
valid_head t rest h = ground arith

parse_basic_token_lem :
    (scheme token : Bytes)
    → map lower_rune scheme ≡ codes "basic"
    → valid token ≡ true
    → parse_basic_token (scheme ++ b' ' ∷ token) (length scheme) (length scheme + 1)
      ≡ (decode token >>= λ pair. ok (split_pair pair))
unfolding parse_basic_token
parse_basic_token_lem scheme token hs hv = rw (
  take-append scheme (b' ' ∷ token),
  drop-append_cons scheme b' ' token,
  hs,
  equal_self (codes "basic"),
  hv,
)

read_scheme :
    (scheme token : Bytes)
    → map lower_rune scheme ≡ codes "basic"
    → Lacks b' ' scheme
    → token ≢ []
    → valid token ≡ true
    → parse_basic_auth (scheme ++ b' ' ∷ token) ≡ (decode token >>= λ pair. ok (split_pair pair))
unfolding parse_basic_auth
read_scheme scheme [] hs skip ne hv = absurd (ne refl)
read_scheme scheme (t ∷ rest) hs skip ne hv =
    let header = scheme ++ b' ' ∷ t ∷ rest in
    let found =
      find_token_first scheme header (length header) 0 t rest refl skip (valid_head t rest hv)
        (omega (arith, length-append scheme (b' ' ∷ t ∷ rest))) in
    let e : 0 + length scheme ≡ length scheme = omega arith in
    rw (is_empty-append_cons scheme b' ' (t ∷ rest), found, e)
      (parse_basic_token_lem scheme (t ∷ rest) hs hv)

length-ne-zero : (xs : Bytes) → xs ≢ [] → length xs ≢ 0
length-ne-zero [] ne e = ne refl
length-ne-zero (x ∷ xs) ne e = absurd (omega arith)

split_pair_lem :
    (user password : Bytes)
    → user ≢ []
    → Lacks b':' user
    → split_pair (user ++ b':' ∷ password) ≡ some (record { user = user; password = password })
unfolding split_pair
split_pair_lem user password ne skip =
    let pair = user ++ b':' ∷ password in
    let found =
      scan_hit (λ x. x == b':') pair user 0 b':' password (length pair - 0) refl skip refl
        (omega (arith, length-append user (b':' ∷ password))) in
    let e : 0 + length user ≡ length user = omega arith in
    rw
      (
        found,
        split_pair,
        e,
        take-append user (b':' ∷ password),
        drop-append_cons user b':' password,
      )
      (ground (arith, length-ne-zero user ne))

-- The header written for a user and a password is read back as both, whatever the case of the
-- scheme's name. The user is not empty and holds no colon.
pub parse_basic_auth-encode :
    (scheme user password : Bytes)
    → map lower_rune scheme ≡ codes "basic"
    → Lacks b' ' scheme
    → user ≢ []
    → Lacks b':' user
    → IsBytes user
    → IsBytes password
    → parse_basic_auth (scheme ++ b' ' ∷ encode (user ++ b':' ∷ password))
      ≡ ok (some (record { user = user; password = password }))
parse_basic_auth-encode scheme user password hs skip ne colon hu hp =
    let pair = user ++ b':' ∷ password in
    let bytes = All-append (λ b. b < 256) user (b':' ∷ password) hu (omega arith, hp) in
    let full : pair ≢ [] = λ e. cc (ap is_empty e, is_empty-append_cons user b':' password) in
    read_scheme scheme (encode pair) hs skip (encode-ne-nil pair full) (encode_shape pair bytes).1
    ∙ rw (decode-encode pair bytes full) (ap ok (split_pair_lem user password ne colon))
