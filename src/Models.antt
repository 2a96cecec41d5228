-- ===== src/Models.antt =====
-- models.py: the configuration of the device.
use hass_comelit_intercom_lo.Base.{ℕ, ◌++◌, [], ◌∷◌, List}
use hass_comelit_intercom_lo.Base.Bytes.{Str, decimal}
use hass_comelit_intercom_lo.Doors.Opening.{Door}

pub record Camera : Type 0 where
  pub id : ℕ
  pub name : Str
  pub rtsp_url : Str
  pub rtsp_user : Str
  pub rtsp_password : Str

pub record DeviceConfig : Type 0 where
  pub apt_address : Str
  pub apt_subaddress : ℕ
  pub caller_address : Str
  pub doors : List Door
  pub cameras : List Camera

-- f"{config.apt_address}{config.apt_subaddress}"
unfoldable pub our_address : DeviceConfig → Str
our_address config = config.apt_address ++ decimal config.apt_subaddress

-- config.caller_address or our_addr
unfoldable pub entrance_address : DeviceConfig → Str
entrance_address config = elim config.caller_address [
  | [] ↦ our_address config
  | b ∷ rest ↦ b ∷ rest
]
