-- ===== src/Config/Json.antt =====
-- Values of Python's `json`, and what config_reader.py does with them. Numbers that are not natural are
-- one more kind of value.
use hass_comelit_intercom_lo.Base.{
  ℕ, Bool, List, [], ◌∷◌, Result, ok, err, attribute_error, type_error, if◌then◌else◌,
}
use hass_comelit_intercom_lo.Base.Bytes.{Str}
use hass_comelit_intercom_lo.Base.Dict.{same}

mutual
  pub data Json : Type 0 where
    null other_number : Json
    boolean : Bool → Json
    number : ℕ → Json
    text : Str → Json
    array : Items → Json
    object : Fields → Json

  pub data Items : Type 0 where
    no_items : Items
    item : Json → Items → Items

  pub data Fields : Type 0 where
    no_fields : Fields
    field : Str → Json → Fields → Fields

-- A dict's `get(key, default)`.
unfoldable pub field_or : Str → Json → Fields → Json
field_or key default no_fields = default
field_or key default (field name value rest) =
    if same name key then value else field_or key default rest

-- value.get(key, default): an `AttributeError` where the value is no dict.
unfoldable pub get_or : Str → Json → Json → Result Json
unfolding field_or
get_or key default (object fields) = ok (field_or key default fields)
get_or key default null = err attribute_error
get_or key default other_number = err attribute_error
get_or key default (boolean b) = err attribute_error
get_or key default (number n) = err attribute_error
get_or key default (text t) = err attribute_error
get_or key default (array items) = err attribute_error

unfoldable pub list_of : Items → List Json
list_of no_items = []
list_of (item value rest) = value ∷ list_of rest

unfoldable pub letters : Str → List Json
letters [] = []
letters (c ∷ t) = text (c ∷ []) ∷ letters t

unfoldable pub keys : Fields → List Json
keys no_fields = []
keys (field name value rest) = text name ∷ keys rest

-- for item in value: the items of a list, the letters of a text, the keys of a dict.
unfoldable pub iterate : Json → Result (List Json)
unfolding list_of letters keys
iterate (array items) = ok (list_of items)
iterate (text t) = ok (letters t)
iterate (object fields) = ok (keys fields)
iterate null = err type_error
iterate other_number = err type_error
iterate (boolean b) = err type_error
iterate (number n) = err type_error
