-- ===== src/Http/Url/Credentials.antt =====
-- URLs with credentials in front of the host.
use lambda.Base.{
  ℕ, suc, ◌+◌, ◌-◌, ◌<◌, false, [], ◌∷◌, ◌++◌, append_assoc, Option, some, ◌≡◌, ◌∙◌, refl, sym, ap,
  arith, Bytes, All-append, ◌==◌, length, length-append, drop, drop-append, drop-drop, first_in_hit,
  substr_at, drop_past, length_at, Lacks, substr, ok, >>=-eq-ok, drop-suc,
}
use lambda.Http.Trim.{reset_case, trim_space}
use lambda.Http.Auth.{BasicAuth}
use lambda.Http.Url.{
  Url, scheme_part, authority_part, fragment_part, query_part, parse_credentials, parse_from,
  parse_url,
}
use lambda.Http.Url.Laws.{scheme_part_lem}

nil_of_length : (xs : Bytes) → length xs ≡ 0 → xs ≡ []
nil_of_length [] h = refl
nil_of_length (x ∷ xs) h = absurd (omega arith)

-- `user:password` up to the at sign.
parse_credentials_lem :
    (url user password rest : Bytes) (i : ℕ)
    → drop i url ≡ user ++ b':' ∷ (password ++ b'@' ∷ rest)
    → 0 < length user
    → Lacks b':' user
    → parse_credentials url i (i + suc (length user + length password))
      ≡ some (record { user = user; password = password })
unfolding parse_credentials
parse_credentials_lem url user password rest i at pos colon =
    let stop = i + suc (length user + length password) in
    let split = i + length user in
    let found =
      first_in_hit url b':' i stop user (password ++ b'@' ∷ rest) at colon (omega arith) in
    let behind =
      drop-suc url split b':' (password ++ b'@' ∷ rest)
        (drop_past url i split user (b':' ∷ (password ++ b'@' ∷ rest)) at refl) in
    let user_text =
      substr_at url i (split - i) user (b':' ∷ (password ++ b'@' ∷ rest)) at (omega arith) in
    let password_text =
      substr_at url (split + 1) (stop - (split + 1)) password (b'@' ∷ rest) behind (omega arith) in
    rw (found, parse_credentials) (ground (arith, user_text, password_text, nil_of_length password))

reset_case_nil : (url : Bytes) (i : ℕ) → reset_case (substr url i (i - i)) ≡ []
unfolding reset_case trim_space
reset_case_nil url i = let e : i - i ≡ 0 = omega arith in rw e refl

authority_part_lem :
    (url a rest : Bytes) (i j : ℕ)
    → drop i url ≡ a ++ b'@' ∷ rest
    → Lacks b'@' a
    → i + length a < j
    → authority_part url i j ≡ (parse_credentials url i (i + length a), [])
unfolding authority_part
authority_part_lem url a rest i j at clean lt =
    rw (first_in_hit url b'@' i j a rest at clean lt, authority_part)
      (rw (reset_case_nil url (i + length a + 1)))

parse_from-authority :
    (url : Bytes) (sc : Bytes) (i j : ℕ) (u : Url) (user : Option BasicAuth) (host : Bytes)
    → scheme_part url ≡ (sc, i)
    → authority_part url i j ≡ (user, host)
    → parse_from url j ≡ ok u
    → (u.user ≡ user) × (u.host ≡ host)
unfolding parse_from
parse_from-authority url sc i j u user host sp auth h =
    let (query, _, e) = >>=-eq-ok (query_part url j (fragment_part url j).1) _ h in
    ground (arith, sp, auth, e)

-- A URL with a user and a password in front of the host gives both, and an empty host, whatever
-- host stands there.
pub parse_url-credentials :
    (s user password h p : Bytes) (u : Url)
    → Lacks b':' s
    → 0 < length user
    → Lacks b':' user
    → Lacks b'@' user
    → Lacks b'/' user
    → Lacks b'@' password
    → Lacks b'/' password
    → Lacks b'/' h
    → parse_url (s ++ b':' ∷ b'/' ∷ b'/' ∷ (user ++ b':' ∷ (password ++ b'@' ∷ (h ++ b'/' ∷ p))))
      ≡ ok u
    → (u.user ≡ some (record { user = user; password = password })) × (u.host ≡ [])
unfolding parse_url
parse_url-credentials s user password h p u hs pos c1 c2 c3 c4 c5 c6 =
    let tail = user ++ b':' ∷ (password ++ b'@' ∷ (h ++ b'/' ∷ p)) in
    let url = s ++ b':' ∷ b'/' ∷ b'/' ∷ tail in
    let i = length s + 3 in
    let account = user ++ b':' ∷ password in
    let front = account ++ b'@' ∷ h in
    let at : drop i url ≡ tail =
      sym (drop-drop 3 (length s) url) ∙ ap (drop 3) (drop-append s (b':' ∷ b'/' ∷ b'/' ∷ tail)) in
    let at_host : drop i url ≡ account ++ b'@' ∷ (h ++ b'/' ∷ p) =
      at ∙ sym (append_assoc user (b':' ∷ password) (b'@' ∷ (h ++ b'/' ∷ p))) in
    let at_path : drop i url ≡ front ++ b'/' ∷ p =
      at_host ∙ sym (append_assoc account (b'@' ∷ h) (b'/' ∷ p)) in
    let sp = scheme_part_lem s tail hs in
    let no_at : Lacks b'@' account =
      All-append (λ x. (x == b'@') ≡ false) user (b':' ∷ password) c2 (refl, c4) in
    let no_slash : Lacks b'/' front =
      All-append (λ x. (x == b'/') ≡ false) account (b'@' ∷ h)
        (All-append (λ x. (x == b'/') ≡ false) user (b':' ∷ password) c3 (refl, c5)) (refl, c6) in
    let end =
      length_at url (i + length front) b'/' p
        (drop_past url i (i + length front) front (b'/' ∷ p) at_path refl) in
    let path = first_in_hit url b'/' i (length url) front p at_path no_slash (omega (arith, end)) in
    let size : i + length account ≡ i + suc (length user + length password) =
      omega (arith, length-append user (b':' ∷ password)) in
    let account_text =
      rw (← size) at (parse_credentials_lem url user password (h ++ b'/' ∷ p) i at pos c1) in
    let auth =
      authority_part_lem url account (h ++ b'/' ∷ p) i (i + length front) at_host no_at
        (omega (arith, length-append account (b'@' ∷ h))) in
    rw (sp, path, parse_url)
      (parse_from-authority url (reset_case s) i (i + length front) u _ [] sp
        (rw account_text at auth))
