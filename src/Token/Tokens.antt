-- ===== src/Token/Tokens.antt =====
-- What `_parse_token_from_archive` of token.py returns.
use hass_comelit_intercom_lo.Base.{
  ◌≡◌, ◌≢◌, Bool, true, ◌&&◌, ◌==◌, Option, none, some, List, [], ◌∷◌, Result, ok, err, arith, All,
  length, take, drop, Bool-cases, inl, inr, if◌then◌else◌, parts-eq-ok, if-cases, ==_iff, subst,
}
use hass_comelit_intercom_lo.Base.Bytes.{Bytes, Str}
use hass_comelit_intercom_lo.Base.Dict.{same, same_iff}
use hass_comelit_intercom_lo.Base.Text.{starts_with}
use hass_comelit_intercom_lo.Base.Utf8.{decode_utf8}
use hass_comelit_intercom_lo.Token.Backups.{Site, fetch_archive}
use hass_comelit_intercom_lo.Token.Archive.{
  are_hex, token_prefix, token_at, cons_some, find_tokens, null_token, first_token, Member,
  ends_with, users_file, gzip_magic, token_in, token_of_content, token_of_members, wrap_errors,
  parse_token, extract_token,
}

-- Thirty-two hexadecimal digits, not all of them 0.
pub record IsToken (token : Str) : Type 0 where
  pub size : length token ≡ 32
  pub hex : are_hex token ≡ true
  pub set : token ≢ null_token

abbrev IsMatch : Str → Type 0
IsMatch token = (length token ≡ 32) × (are_hex token ≡ true)

abbrev Matched : Option Str → Type 0
Matched none = Unit {0}
Matched (some token) = IsMatch token

middle_parts : (a b c d : Bool) → (a && (b && (c && d))) ≡ true → (b ≡ true) × (c ≡ true)
middle_parts a b c d h = ground arith

token_at-Matched : (s : Str) → Matched (token_at s)
unfolding token_at
token_at-Matched s =
    let token = take 32 (drop 5 s) in
    if-cases Matched
      (starts_with token_prefix s
        && (length token == 32 && (are_hex token && starts_with (b'"' ∷ []) (drop 37 s))))
      (some token) none
      (λ h.
        let parts =
          middle_parts (starts_with token_prefix s) (length token == 32) (are_hex token) _ h in
        ((==_iff _ 32).0 parts.0, parts.1))
      (λ h. tt)

cons_some-All :
    (o : Option Str) (tokens : List Str)
    → Matched o
    → All IsMatch tokens
    → All IsMatch (cons_some o tokens)
unfolding cons_some
cons_some-All none tokens h k = k
cons_some-All (some token) tokens h k = (h, k)

find_tokens-Matched : (s : Str) → All IsMatch (find_tokens s)
unfolding find_tokens
find_tokens-Matched [] = tt
find_tokens-Matched (c ∷ s) =
    cons_some-All (token_at (c ∷ s)) (find_tokens s) (token_at-Matched (c ∷ s))
      (find_tokens-Matched s)

first_token-IsToken :
    (tokens : List Str) {token : Str}
    → All IsMatch tokens
    → first_token tokens ≡ ok token
    → IsToken token
unfolding first_token
first_token-IsToken [] h e = cc
first_token-IsToken (t ∷ tokens) {token} h e = elim (Bool-cases (same t null_token)) [
  | inl null ↦ first_token-IsToken tokens h.1 (rw null at e)
  | inr other ↦
      let found : t ≡ token = cc (rw other at e) in
      subst IsToken found
        (record { size = h.0.0; hex = h.0.1; set = λ n. cc (other, (same_iff t null_token).1 n) })
]

module _ (decompress : Bytes → Result Bytes) where
  token_in-IsToken :
      (raw : Bytes) {token : Str} → token_in decompress raw ≡ ok token → IsToken token
  unfolding token_in
  token_in-IsToken raw e =
      let (content, read, found) =
        parts-eq-ok (if starts_with gzip_magic raw then decompress raw else ok raw) _ e in
      first_token-IsToken _ (find_tokens-Matched (decode_utf8 content)) found

  token_of_content-IsToken :
      (content : Result (Option Bytes)) (later : Result Str) {token : Str}
      → ((later ≡ ok token) → IsToken token)
      → token_of_content decompress content later ≡ ok token
      → IsToken token
  unfolding token_of_content
  token_of_content-IsToken (err x) later h e = cc
  token_of_content-IsToken (ok none) later h e = h e
  token_of_content-IsToken (ok (some raw)) later h e = token_in-IsToken raw e

  token_of_members-IsToken :
      (members : List Member) {token : Str}
      → token_of_members decompress members ≡ ok token
      → IsToken token
  unfolding token_of_members
  token_of_members-IsToken [] e = cc
  token_of_members-IsToken (m ∷ members) e = elim (Bool-cases (ends_with users_file m.name)) [
    | inl users ↦
        token_of_content-IsToken m.content (token_of_members decompress members)
          (token_of_members-IsToken members) (rw users at e)
    | inr other ↦ token_of_members-IsToken members (rw other at e)
  ]

  wrap_errors-eq-ok :
      (r : Result Str) {token : Str} → wrap_errors decompress r ≡ ok token → r ≡ ok token
  unfolding wrap_errors
  wrap_errors-eq-ok (err e) h = cc
  wrap_errors-eq-ok (ok token) h = h

  -- A token that the extraction returns is 32 hexadecimal digits, and never the null token, whatever
  -- the web interface answers and the archive holds.
  pub extract_token-IsToken :
      (open_archive : Bytes → Result (List Member)) (site : Site) {token : Str}
      → extract_token decompress open_archive site ≡ ok token
      → IsToken token
  unfolding extract_token parse_token
  extract_token-IsToken open_archive site e =
      let (archive, fetched, parsed) = parts-eq-ok (fetch_archive site) _ e in
      let (members, opened, found) =
        parts-eq-ok (open_archive archive) _ (wrap_errors-eq-ok _ parsed) in
      token_of_members-IsToken members found
