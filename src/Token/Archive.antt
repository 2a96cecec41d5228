-- ===== src/Token/Archive.antt =====
-- token.py: `_parse_token_from_archive`. Python's `tarfile` and `gzip` are arguments.
use hass_comelit_intercom_lo.Base.{
  ℕ, Bool, true, ◌&&◌, ◌||◌, ◌==◌, Option, none, some, List, [], ◌∷◌, Result, ok, err,
  token_extraction_error, tar_error, Error, ◌>>=◌, leb, if◌then◌else◌, length, take, drop,
  replicate,
}
use hass_comelit_intercom_lo.Base.Bytes.{Bytes, Str}
use hass_comelit_intercom_lo.Base.Dict.{same}
use hass_comelit_intercom_lo.Base.Text.{codes, starts_with, is_digit}
use hass_comelit_intercom_lo.Base.Utf8.{decode_utf8}
use hass_comelit_intercom_lo.Token.Backups.{Site, fetch_archive}

-- [a-f0-9] with re.IGNORECASE
abbrev pub is_hex : ℕ → Bool
is_hex c = is_digit c || (leb b'a' c && leb c b'f') || (leb b'A' c && leb c b'F')

unfoldable pub are_hex : Str → Bool
are_hex [] = true
are_hex (c ∷ s) = is_hex c && are_hex s

abbrev pub token_prefix : Str
token_prefix = codes "9:4:\""

-- A match of TOKEN_PATTERN at the front of the text.
unfoldable pub token_at : Str → Option Str
unfolding are_hex
token_at s =
    let token = take 32 (drop 5 s) in
    if starts_with token_prefix s
      && (length token == 32 && (are_hex token && starts_with (b'"' ∷ []) (drop 37 s)))
    then some token
    else none

unfoldable pub cons_some : Option Str → List Str → List Str
cons_some none tokens = tokens
cons_some (some token) tokens = token ∷ tokens

-- TOKEN_PATTERN.findall: two matches cannot overlap.
unfoldable pub find_tokens : Str → List Str
unfolding token_at cons_some
find_tokens [] = []
find_tokens (c ∷ s) = cons_some (token_at (c ∷ s)) (find_tokens s)

abbrev pub null_token : Str
null_token = replicate 32 b'0'

-- The first token that is not null.
unfoldable pub first_token : List Str → Result Str
first_token [] = err token_extraction_error
first_token (token ∷ tokens) = if same token null_token then first_token tokens else ok token

-- A member of the archive, and what reading it gives: `none` where it is no file.
pub record Member : Type 0 where
  pub name : Str
  pub content : Result (Option Bytes)

-- s.endswith(suffix)
unfoldable pub ends_with : Str → Str → Bool
ends_with suffix [] = same suffix []
ends_with suffix (c ∷ s) = same suffix (c ∷ s) || ends_with suffix s

abbrev pub users_file : Str
users_file = codes "users.cfg"

abbrev pub gzip_magic : Bytes
gzip_magic = 0x1f ∷ 0x8b ∷ []

module _ (decompress : Bytes → Result Bytes) where
  unfoldable pub token_in : Bytes → Result Str
  unfolding find_tokens first_token
  token_in raw = do
    content ← if starts_with gzip_magic raw then decompress raw else ok raw
    first_token (find_tokens (decode_utf8 content))

  -- What is no file is passed over.
  unfoldable pub token_of_content : Result (Option Bytes) → Result Str → Result Str
  unfolding token_in
  token_of_content (err e) later = err e
  token_of_content (ok none) later = later
  token_of_content (ok (some raw)) later = token_in raw

  -- The loop over the members ends at the first users.cfg that is a file.
  unfoldable pub token_of_members : List Member → Result Str
  unfolding token_of_content ends_with
  token_of_members [] = err token_extraction_error
  token_of_members (m ∷ members) =
      let later = token_of_members members in
      if ends_with users_file m.name then token_of_content m.content later else later

  -- A `TarError` is raised as a `TokenExtractionError`; other exceptions pass.
  unfoldable pub as_token_error : Error → Error
  as_token_error tar_error = token_extraction_error
  as_token_error e = e

  unfoldable pub wrap_errors : Result Str → Result Str
  wrap_errors (err e) = err (as_token_error e)
  wrap_errors (ok token) = ok token

  unfoldable pub parse_token : (Bytes → Result (List Member)) → Bytes → Result Str
  unfolding token_of_members as_token_error wrap_errors
  parse_token open_archive archive =
      wrap_errors (do members ← open_archive archive; token_of_members members)

  unfoldable pub extract_token : (Bytes → Result (List Member)) → Site → Result Str
  unfolding parse_token
  extract_token open_archive site = do
    archive ← fetch_archive site
    parse_token open_archive archive
