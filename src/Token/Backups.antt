-- ===== src/Token/Backups.antt =====
-- token.py: `extract_token` up to the download. What the device's web interface answers is an
-- argument.
use hass_comelit_intercom_lo.Base.{
  ℕ, Bool, true, false, not, ◌&&◌, ◌||◌, ◌==◌, Option, none, some, List, [], ◌∷◌, ◌++◌, Result, ok,
  err, token_extraction_error, ◌>>=◌, raise_if, ltb, if◌then◌else◌,
}
use hass_comelit_intercom_lo.Base.Bytes.{Bytes, Str}
use hass_comelit_intercom_lo.Base.Text.{codes, starts_with, contains, is_digit, is_empty}

abbrev pub suffix : Str
suffix = codes ".tar.gz"

-- re.findall(r"([0-9]+\.tar\.gz)", html), with the digits just read.
unfoldable pub names_from : Str → Str → List Str
unfolding starts_with
names_from digits [] = []
names_from digits (c ∷ s) =
    let rest = names_from (if is_digit c then digits ++ c ∷ [] else []) s in
    if not (is_empty digits) && starts_with suffix (c ∷ s) then (digits ++ suffix) ∷ rest else rest

unfoldable pub backup_files : Str → List Str
unfolding names_from
backup_files html = names_from [] html

-- The order of texts.
unfoldable pub le_str : Str → Str → Bool
le_str [] t = true
le_str (a ∷ s) [] = false
le_str (a ∷ s) (b ∷ t) = ltb a b || (a == b && le_str s t)

-- `sort`, and the last element.
unfoldable pub insert_sorted : Str → List Str → List Str
insert_sorted name [] = name ∷ []
insert_sorted name (n ∷ names) =
    let rest = insert_sorted name names in if le_str name n then name ∷ n ∷ names else n ∷ rest

unfoldable pub sort : List Str → List Str
unfolding insert_sorted
sort [] = []
sort (name ∷ names) = insert_sorted name (sort names)

unfoldable pub last? : List Str → Option Str
last? [] = none
last? (name ∷ []) = some name
last? (name ∷ n ∷ names) = last? (n ∷ names)

-- `none` is a page with no backup.
unfoldable pub latest_backup : Str → Option Str
unfolding sort last? backup_files le_str
latest_backup html = last? (sort (backup_files html))

-- The answers: a status and a text for the login, the text of the new backup, the list's status and
-- page, and a status and the bytes for each archive.
pub record Site : Type 0 where
  pub login : Result (ℕ × Str)
  pub create : Result Str
  pub listing : Result (ℕ × Str)
  pub download : Str → Result (ℕ × Bytes)

unfoldable pub require_latest : Option Str → Result Str
require_latest none = err token_extraction_error
require_latest (some name) = ok name

-- The archive of the latest backup.
unfoldable pub fetch_archive : Site → Result Bytes
unfolding require_latest latest_backup contains
fetch_archive site = do
  (status, content) ← site.login
  raise_if (not (status == 200)) token_extraction_error (
      raise_if (not (contains (codes "Access granted") content)) token_extraction_error (do
        created ← site.create
        raise_if (not (contains (codes "Backup successfully created") created))
            token_extraction_error
            (do
              (list_status, html) ← site.listing
              raise_if (not (list_status == 200)) token_extraction_error (do
                name ← require_latest (latest_backup html)
                (archive_status, archive) ← site.download name
                raise_if (not (archive_status == 200)) token_extraction_error (ok archive)))))
