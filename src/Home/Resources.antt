-- ===== src/Home/Resources.antt =====
-- __init__.py: `_init_resource`, which call of the Lovelace resources it makes.
use hass_comelit_intercom_lo.Base.{ℕ, Bool, Option, none, some, List, [], ◌∷◌, ◌++◌, if◌then◌else◌}
use hass_comelit_intercom_lo.Base.Bytes.{Str}
use hass_comelit_intercom_lo.Base.Text.{codes, starts_with}
use hass_comelit_intercom_lo.Token.Archive.{ends_with}

-- A resource: its id and its address.
pub record Resource : Type 0 where
  pub id : ℕ
  pub url : Str

-- What is asked of Home Assistant: of a stored collection, or else of one from YAML.
pub data Call : Type 0 where
  update_item : ℕ → Str → Call
  set_url : ℕ → Str → Call
  create_item : Str → Call
  add_extra_js_url : Str → Call

-- f"{url}?v={version}"
abbrev pub versioned : Str → Str → Str
versioned url version = url ++ (codes "?v=" ++ version)

unfoldable pub update_call : Bool → ℕ → Str → Call
update_call is_stored id url = if is_stored then update_item id url else set_url id url

unfoldable pub add_call : Bool → Str → Call
add_call is_stored url = if is_stored then create_item url else add_extra_js_url url

-- The call for a card; `none` if its resource is taken to be up to date.
unfoldable pub init_resource : Bool → Str → Str → List Resource → Option Call
unfolding update_call add_call starts_with ends_with
init_resource is_stored url version [] = some (add_call is_stored (versioned url version))
init_resource is_stored url version (item ∷ items) =
    let others = init_resource is_stored url version items in
    if starts_with url item.url
    then (if ends_with version item.url
        then none
        else some (update_call is_stored item.id (versioned url version)))
    else others
