-- ===== src/Base/Results.antt =====
-- Values of code that may raise: one constructor of `Error` for each exception the modelled code
-- raises or lets through.
use mathlib.Core.Path.{◌≡◌, refl}
use mathlib.Core.Bool.{Bool, true, false}
use hass_comelit_intercom_lo.Base.Tests.{if◌then◌else◌}

pub data Error : Type 0 where
  struct_error value_error unicode_error index_error : Error
  connection_error protocol_error incomplete_read : Error
  not_connected video_stopped already_in_progress : Error
  assertion_error : Error
  video_call_error no_video_channel not_configured reconnect_failed update_failed : Error
  attribute_error type_error key_error : Error
  door_open_error authentication_error : Error
  token_extraction_error tar_error timeout_error os_error overflow_error : Error
  auth_failed not_ready : Error

pub data Result {ℓ} (A : Type ℓ) : Type ℓ where
  err : Error → Result A
  ok : A → Result A

-- The rest of the code runs where the first part has returned; an exception passes through.
infixl 5 ◌>>=◌
abbrev pub ◌>>=◌ {ℓ κ} : {A : Type ℓ} {B : Type κ} → Result A → (A → Result B) → Result B
first >>= rest = elim first [ err e ↦ err e | ok a ↦ rest a ]

-- `if condition: raise e`, and the code behind it.
abbrev pub raise_if {ℓ} : {A : Type ℓ} → Bool → Error → Result A → Result A
raise_if condition e rest = if condition then err e else rest

-- Code that has returned has returned from its first part.
pub parts-eq-ok {ℓ κ} :
    {A : Type ℓ} {B : Type κ} (first : Result A) (rest : A → Result B) {result : B}
    → first >>= rest ≡ ok result
    → (a : A) × (first ≡ ok a) × (rest a ≡ ok result)
parts-eq-ok (err e) rest returned = cc
parts-eq-ok (ok a) rest returned = (a, refl, returned)

-- The code returns, with a value of which `P` holds.
abbrev pub Returns {ℓ} : {A : Type ℓ} → (A → Type 0) → Result A → Type 0
Returns P (ok a) = P a
Returns P (err e) = ⊥

pub Returns-bind {ℓ κ} :
    {A : Type ℓ} {B : Type κ} (P : A → Type 0) (Q : B → Type 0) (m : Result A) (f : A → Result B)
    → Returns P m
    → ((a : A) → P a → Returns Q (f a))
    → Returns Q (m >>= f)
Returns-bind P Q (ok a) f h k = k a h
Returns-bind P Q (err e) f h k = elim h [ ]

pub Returns-map {ℓ} :
    {A : Type ℓ} (P Q : A → Type 0) (r : Result A)
    → ((a : A) → P a → Q a)
    → Returns P r
    → Returns Q r
Returns-map P Q (ok a) f h = f a h
Returns-map P Q (err e) f h = h

pub Returns-if {ℓ} :
    {A : Type ℓ} (P : A → Type 0) (b : Bool) (x y : Result A)
    → (b ≡ true → Returns P x)
    → (b ≡ false → Returns P y)
    → Returns P (if b then x else y)
Returns-if P true x y h k = h refl
Returns-if P false x y h k = k refl
