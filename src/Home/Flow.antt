-- ===== src/Home/Flow.antt =====
-- config_flow.py: `async_step_user` with an input. What the token's extraction, the connection and the
-- log-in give is an argument.
use hass_comelit_intercom_lo.Base.{
  ℕ, Bool, [], ◌∷◌, ◌++◌, Result, ok, err, Error, authentication_error, connection_error,
  timeout_error, os_error, if◌then◌else◌,
}
use hass_comelit_intercom_lo.Base.Bytes.{Str}
use hass_comelit_intercom_lo.Base.Text.{codes, strip, is_empty}

pub record UserInput : Type 0 where
  pub name : Str
  pub host : Str
  pub port : ℕ
  pub http_port : ℕ
  pub token : Str

pub record EntryData : Type 0 where
  pub host : Str
  pub port : ℕ
  pub token : Str
  pub http_port : ℕ

-- errors["base"]
pub data FormError : Type 0 where
  token_extraction_failed invalid_auth cannot_connect : FormError

-- How the step ends: the form again, the end of the flow, an entry with its title, or an exception.
pub data StepResult : Type 0 where
  show_form : FormError → StepResult
  already_configured : StepResult
  create_entry : Str → EntryData → StepResult
  raises : Error → StepResult

-- What the device does: its token, and a log-in with this token.
pub record Trial : Type 0 where
  pub extracted : Result Str
  pub log_in : Str → Result (Unit {0})
  -- the host's entry is there
  pub is_configured : Bool

-- The token of the input, or else the one that is extracted. Any exception is an error of the form.
unfoldable pub token_or_extract : Str → Result Str → Result Str
token_or_extract [] extracted = extracted
token_or_extract (c ∷ token) extracted = ok (c ∷ token)

-- The `except` clauses of the log-in.
unfoldable pub log_in_error : Error → StepResult
log_in_error authentication_error = show_form invalid_auth
log_in_error connection_error = show_form cannot_connect
log_in_error timeout_error = show_form cannot_connect
log_in_error os_error = show_form cannot_connect
log_in_error other = raises other

unfoldable pub title_of : UserInput → Str
title_of i = let name = strip i.name in if is_empty name then codes "Comelit " ++ i.host else name

unfoldable pub entry_data : UserInput → Str → EntryData
entry_data i token = record { host = i.host; port = i.port; token = token; http_port = i.http_port }

unfoldable pub log_in_end : UserInput → Str → Bool → Result (Unit {0}) → StepResult
unfolding log_in_error title_of entry_data
log_in_end i token is_configured (err e) = log_in_error e
log_in_end i token is_configured (ok done) =
    if is_configured then already_configured else create_entry (title_of i) (entry_data i token)

unfoldable pub with_token : UserInput → Trial → Result Str → StepResult
unfolding log_in_end
with_token i trial (err e) = show_form token_extraction_failed
with_token i trial (ok token) = log_in_end i token trial.is_configured (trial.log_in token)

unfoldable pub step_user : UserInput → Trial → StepResult
unfolding with_token token_or_extract
step_user i trial = with_token i trial (token_or_extract (strip i.token) trial.extracted)
