-- ===== src/Examples/Setup.antt =====
-- token.py, config_flow.py and the buttons of button.py at concrete inputs.
use hass_comelit_intercom_lo.Base.{
  ◌≡◌, ◌≢◌, ◌↔◌, ◌≤◌, refl, false, some, List, [], ◌∷◌, ◌++◌, map, Result, ok, arith, All,
}
use hass_comelit_intercom_lo.Base.Bytes.{Bytes, Str}
use hass_comelit_intercom_lo.Base.Text.{codes, starts_with}
use hass_comelit_intercom_lo.Base.Utf8.{decode_utf8}
use hass_comelit_intercom_lo.Token.Backups.{
  Site, suffix, backup_files, latest_backup, fetch_archive,
}
use hass_comelit_intercom_lo.Token.Archive.{Member, extract_token}
use hass_comelit_intercom_lo.Token.Tokens.{IsToken, extract_token-IsToken}
use hass_comelit_intercom_lo.Token.Choice.{value, latest_backup-highest, latest_backup_first_digit}
use hass_comelit_intercom_lo.Home.Flow.{UserInput, Trial, EntryData, create_entry, step_user}
use hass_comelit_intercom_lo.Home.Outcomes.{Makes, step_user-Makes}

-- A page with two backups of equally many digits, and one with a longer number.
abbrev page : Str
page = codes "<a>12.tar.gz</a><a>10.tar.gz</a>"

abbrev mixed_page : Str
mixed_page = codes "<a>9.tar.gz</a><a>10.tar.gz</a>"

page_listed : backup_files page ≡ map (λ n. n ++ suffix) (codes "12" ∷ codes "10" ∷ [])
unfolding backup_files
page_listed = refl

page_taken : latest_backup page ≡ some (codes "12" ++ suffix)
unfolding latest_backup
page_taken = refl

latest_backup-highest_example :
    All (λ n. value n ≤ value (codes "12")) (codes "12" ∷ codes "10" ∷ [])
latest_backup-highest_example =
    latest_backup-highest page 2 (codes "12" ∷ codes "10" ∷ []) (codes "12") page_listed
      (((refl, (refl, tt)), refl), (((refl, (refl, tt)), refl), tt)) ((refl, (refl, tt)), refl)
      page_taken

mixed_page_listed : backup_files mixed_page ≡ [] ++ (b'9' ∷ suffix) ∷ (codes "10" ++ suffix) ∷ []
unfolding backup_files
mixed_page_listed = refl

-- Number 10 is not taken, for number 9 is there.
latest_backup_first_digit_example : latest_backup mixed_page ≢ some (b'1' ∷ b'0' ∷ suffix)
latest_backup_first_digit_example =
    latest_backup_first_digit mixed_page b'1' b'9' (b'0' ∷ suffix) suffix []
      ((codes "10" ++ suffix) ∷ []) (omega arith) mixed_page_listed

-- A device with one backup, whose users.cfg has a null token before that of the user.
abbrev users : Bytes
users = codes "9:4:\"00000000000000000000000000000000\"\n9:4:\"0123456789abcdef0123456789ABCDEF\""

abbrev site : Site
site = record {
  login = ok (200, codes "Access granted");
  create = ok (codes "Backup successfully created");
  listing = ok (200, page);
  download = λ name. ok (200, users);
}

as_members : Bytes → Result (List Member)
as_members archive = ok (record { name = codes "etc/users.cfg"; content = ok (some archive) } ∷ [])

as_it_is : Bytes → Result Bytes
as_it_is bytes = ok bytes

token_found : extract_token as_it_is as_members site ≡ ok (codes "0123456789abcdef0123456789ABCDEF")
unfolding extract_token fetch_archive as_it_is as_members starts_with decode_utf8
token_found = refl

extract_token-IsToken_example : IsToken (codes "0123456789abcdef0123456789ABCDEF")
extract_token-IsToken_example = extract_token-IsToken as_it_is as_members site token_found

abbrev input : UserInput
input = record {
  name = [];
  host = codes "10.0.0.9";
  port = 64100;
  http_port = 8080;
  token = codes " abc ";
}

abbrev trial : Trial
trial = record { extracted = ok []; log_in = λ token. ok tt; is_configured = false }

abbrev made : EntryData
made = record { host = codes "10.0.0.9"; port = 64100; token = codes "abc"; http_port = 8080 }

step_user-Makes_example :
    (step_user input trial ≡ create_entry (codes "Comelit 10.0.0.9") made)
    ↔ Makes input trial (codes "Comelit 10.0.0.9") made
step_user-Makes_example = step_user-Makes input trial (codes "Comelit 10.0.0.9") made
