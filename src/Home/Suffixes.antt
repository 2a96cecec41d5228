-- ===== src/Home/Suffixes.antt =====
-- When `_init_resource` of __init__.py takes a card's resource to be up to date.
use hass_comelit_intercom_lo.Base.{
  ℕ, ◌≡◌, refl, Bool, true, false, none, List, [], ◌∷◌, ◌++◌, arith, All,
}
use hass_comelit_intercom_lo.Base.Bytes.{Str}
use hass_comelit_intercom_lo.Base.Dict.{same_iff}
use hass_comelit_intercom_lo.Base.Text.{codes, starts_with}
use hass_comelit_intercom_lo.Token.Archive.{ends_with}
use hass_comelit_intercom_lo.Home.Resources.{Resource, versioned, init_resource}

starts_with_self : (s t : Str) → starts_with s (s ++ t) ≡ true
unfolding starts_with
starts_with_self [] t = refl
starts_with_self (c ∷ s) t = ground (arith, starts_with_self s t)

ends_with_refl : (s : Str) → ends_with s s ≡ true
unfolding ends_with
ends_with_refl [] = refl
ends_with_refl (c ∷ s) = rw ((same_iff (c ∷ s) (c ∷ s)).1 refl) refl

ends_with_behind : (t r s : Str) → ends_with t s ≡ true → ends_with t (r ++ s) ≡ true
unfolding ends_with
ends_with_behind t [] s h = h
ends_with_behind t (c ∷ r) s h = ground (arith, ends_with_behind t r s h)

-- The resource of a card at another version is left alone where that version ends with the new one:
-- the rest `older` of its version may be any text.
pub init_resource_suffix :
    (is_stored : Bool) (url version older : Str) (id : ℕ) (before later : List Resource)
    → All (λ item. starts_with url item.url ≡ false) before
    → init_resource is_stored url version
        (before ++ record { id = id; url = versioned url (older ++ version) } ∷ later)
      ≡ none
unfolding init_resource
init_resource_suffix is_stored url version older id [] later h = ground (
  arith,
  starts_with_self url (codes "?v=" ++ (older ++ version)),
  ends_with_behind version url (codes "?v=" ++ (older ++ version)) (
      ends_with_behind version (codes "?v=") (older ++ version)
        (ends_with_behind version older version (ends_with_refl version))),
)
init_resource_suffix is_stored url version older id (item ∷ before) later h =
    ground (arith, init_resource_suffix is_stored url version older id before later h.1)
