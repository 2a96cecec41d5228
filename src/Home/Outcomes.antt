-- ===== src/Home/Outcomes.antt =====
-- When the configuration flow of config_flow.py makes an entry.
use hass_comelit_intercom_lo.Base.{
  ◌≡◌, ◌≢◌, ◌↔◌, ◌⊎◌, refl, sym, ap, subst, ◌∙◌, [], ◌∷◌, ◌++◌, Bool, false, Result, ok, err, arith,
}
use hass_comelit_intercom_lo.Base.Bytes.{Str}
use hass_comelit_intercom_lo.Base.Text.{codes, strip}
use hass_comelit_intercom_lo.Home.Flow.{
  UserInput, EntryData, create_entry, Trial, token_or_extract, log_in_error, title_of, entry_data,
  log_in_end, with_token, step_user,
}

-- The token that is used: the one of the input without its outer spaces, or else the extracted one.
abbrev pub IsTokenOf : Str → Result Str → Str → Type 0
IsTokenOf given extracted token =
    ((given ≢ []) × (token ≡ given)) ⊎ ((given ≡ []) × (extracted ≡ ok token))

-- The title: the name of the input without its outer spaces, or else one made from the host.
abbrev pub IsTitleOf : Str → Str → Str → Type 0
IsTitleOf name host title =
    ((name ≢ []) × (title ≡ name)) ⊎ ((name ≡ []) × (title ≡ codes "Comelit " ++ host))

-- A log-in with the token has succeeded, the host has no entry yet, and the entry's fields are those
-- of the input.
abbrev pub Makes : UserInput → Trial → Str → EntryData → Type 0
Makes i trial title d =
    IsTokenOf (strip i.token) trial.extracted d.token
    × (trial.log_in d.token ≡ ok tt)
    × (trial.is_configured ≡ false)
    × IsTitleOf (strip i.name) i.host title
    × (d.host ≡ i.host)
    × (d.port ≡ i.port)
    × (d.http_port ≡ i.http_port)

token_or_extract-IsTokenOf :
    (given : Str) (extracted : Result Str) (token : Str)
    → (token_or_extract given extracted ≡ ok token) ↔ IsTokenOf given extracted token
unfolding token_or_extract
token_or_extract-IsTokenOf [] extracted token = ground arith
token_or_extract-IsTokenOf (c ∷ given) extracted token = ground arith

title_of-IsTitleOf :
    (i : UserInput) (title : Str) → (title ≡ title_of i) ↔ IsTitleOf (strip i.name) i.host title
unfolding title_of
title_of-IsTitleOf i title = go (strip i.name) refl
  where
    go : (name : Str) → strip i.name ≡ name → (title ≡ title_of i) ↔ IsTitleOf name i.host title
    go [] e = rw e (ground arith)
    go (b ∷ name) e = rw e (ground arith)

log_in_end_makes :
    (i : UserInput) (token title : Str) (is_configured : Bool) (r : Result (Unit {0}))
    (d : EntryData)
    → log_in_end i token is_configured r ≡ create_entry title d
    → (r ≡ ok tt) × (is_configured ≡ false) × (title ≡ title_of i) × (d ≡ entry_data i token)
unfolding log_in_end log_in_error
log_in_end_makes i token title is_configured (err e) d h = ground arith
log_in_end_makes i token title is_configured (ok done) d h = ground arith

with_token_makes :
    (i : UserInput) (trial : Trial) (r : Result Str) (title : Str) (d : EntryData)
    → with_token i trial r ≡ create_entry title d
    → (token : Str) × (r ≡ ok token)
      × (trial.log_in token ≡ ok tt)
      × (trial.is_configured ≡ false)
      × (title ≡ title_of i)
      × (d ≡ entry_data i token)
unfolding with_token
with_token_makes i trial (err e) title d h = cc
with_token_makes i trial (ok token) title d h =
    let (logged, new, named, filled) =
      log_in_end_makes i token title trial.is_configured (trial.log_in token) d h in
    (token, refl, logged, new, named, filled)

-- The flow makes an entry exactly if a log-in with the token of the input, or else with the extracted
-- one, has succeeded, and the host has no entry; and the entry has that token, the input's host and
-- ports, and the input's name or one made from the host as its title.
pub step_user-Makes :
    (i : UserInput) (trial : Trial) (title : Str) (d : EntryData)
    → (step_user i trial ≡ create_entry title d) ↔ Makes i trial title d
unfolding step_user log_in_end with_token entry_data
step_user-Makes i trial title d = (forth, back)
  where
    forth : step_user i trial ≡ create_entry title d → Makes i trial title d
    forth h =
        let (token, found, logged, new, named, filled) =
          with_token_makes i trial (token_or_extract (strip i.token) trial.extracted) title d h in
        let same : d
            ≡ record { host = i.host; port = i.port; token = token; http_port = i.http_port } =
          unfold entry_data in filled in
        let used : token ≡ d.token = sym (ap (λ x. x.token) same) in
        (
          (token_or_extract-IsTokenOf (strip i.token) trial.extracted d.token).0
              (found ∙ ap ok used),
          subst (λ k. trial.log_in k ≡ ok tt) used logged,
          new,
          (title_of-IsTitleOf i title).0 named,
          ap (λ x. x.host) same,
          ap (λ x. x.port) same,
          ap (λ x. x.http_port) same,
        )

    back : Makes i trial title d → step_user i trial ≡ create_entry title d
    back (chosen, logged, new, named, host, port, http_port) =
        ap (with_token i trial)
          ((token_or_extract-IsTokenOf (strip i.token) trial.extracted d.token).1 chosen)
        ∙ ap (log_in_end i d.token trial.is_configured) logged
        ∙ ap (λ b. log_in_end i d.token b (ok tt)) new
        ∙ ap (λ t. create_entry t (entry_data i d.token))
            (sym ((title_of-IsTitleOf i title).1 named))
        ∙ ap (λ (x : EntryData). create_entry title x)
            (λ j. record {
              host = sym host j;
              port = sym port j;
              token = d.token;
              http_port = sym http_port j;
            })
