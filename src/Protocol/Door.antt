-- ===== src/Protocol/Door.antt =====
-- protocol.py: the payloads of the door-open sequence.
use hass_comelit_intercom_lo.Base.{
  ℕ, zero, suc, ◌%◌, Bool, Option, none, some, [], ◌∷◌, ◌++◌, Result, ok, ◌>>=◌, if◌then◌else◌,
}
use hass_comelit_intercom_lo.Base.Bytes.{Bytes, Str, pack_le16, pack_le32, decimal}
use hass_comelit_intercom_lo.Protocol.Channels.{null_terminated}

-- f"{apt_address}{index}"
unfoldable pub with_index : Str → ℕ → Str
with_index apt_address index = apt_address ++ decimal index

abbrev pub wildcard : Bytes
wildcard = 0xFF ∷ 0xFF ∷ 0xFF ∷ 0xFF ∷ []

init_timestamp : Option ℕ → Result Bytes
init_timestamp none = ok (0x5C ∷ 0x8B ∷ 0x2B ∷ 0x73 ∷ [])
init_timestamp (some timestamp) = pack_le32 timestamp

-- (timestamp or 0x238BAC) & 0xFFFF
init_echo : Option ℕ → ℕ
init_echo none = 0x238BAC % 65536
init_echo (some zero) = 0x238BAC % 65536
init_echo (some (suc n)) = suc n % 65536

unfoldable pub encode_ctpp_init : Str → ℕ → Option ℕ → Result Bytes
unfolding init_timestamp init_echo
encode_ctpp_init apt_address apt_subaddress timestamp = do
  prefix ← pack_le16 0x18C0
  ts ← init_timestamp timestamp
  echo ← pack_le16 (init_echo timestamp)
  sub ← null_terminated (with_index apt_address apt_subaddress)
  apt ← null_terminated apt_address
  ok (
      prefix
      ++ ts
      ++ 0x00 ∷ 0x11 ∷ 0x00 ∷ 0x40 ∷ echo
      ++ sub
      ++ 0x10 ∷ 0x0E ∷ 0x00 ∷ 0x00 ∷ 0x00 ∷ 0x00 ∷ wildcard
      ++ sub
      ++ apt
      ++ 0x00 ∷ [])

abbrev pub open_door : ℕ
open_door = 0x1800

abbrev pub open_door_confirm : ℕ
open_door_confirm = 0x1820

unfoldable pub encode_open_door : ℕ → Str → ℕ → Str → Result Bytes
encode_open_door msg_type apt_address output_index door_apt_address = do
  prefix ← pack_le16 msg_type
  output ← null_terminated (with_index apt_address output_index)
  door ← null_terminated door_apt_address
  ok (prefix ++ 0x5C ∷ 0x8B ∷ 0x2C ∷ 0x74 ∷ 0x00 ∷ 0x00 ∷ wildcard ++ output ++ door ++ 0x00 ∷ [])

unfoldable pub encode_door_init : Str → ℕ → Str → Result Bytes
encode_door_init apt_address output_index door_apt_address = do
  door ← null_terminated door_apt_address
  index ← pack_le32 output_index
  output ← null_terminated (with_index apt_address output_index)
  ok (
      0xC0 ∷ 0x18 ∷ 0x70 ∷ 0xAB ∷ 0x29 ∷ 0x9F ∷ 0x00 ∷ 0x0D ∷ 0x00 ∷ 0x2D ∷ door
      ++ 0x00 ∷ index
      ++ wildcard
      ++ output
      ++ door
      ++ 0x00 ∷ [])

unfoldable pub encode_actuator_init : Str → ℕ → Str → Result Bytes
encode_actuator_init apt_address output_index actuator_apt_address = do
  output ← null_terminated (with_index apt_address output_index)
  actuator ← null_terminated actuator_apt_address
  ok (
      0xC0 ∷ 0x18 ∷ 0x45 ∷ 0xBE ∷ 0x8F ∷ 0x5C ∷ 0x00 ∷ 0x04 ∷ 0x00 ∷ 0x20 ∷ 0xFF ∷ 0x01 ∷ wildcard
      ++ output
      ++ actuator
      ++ 0x00 ∷ [])

unfoldable pub encode_actuator_open : Str → ℕ → Str → Bool → Result Bytes
encode_actuator_open apt_address output_index actuator_apt_address confirm = do
  output ← null_terminated (with_index apt_address output_index)
  actuator ← null_terminated actuator_apt_address
  let kind : ℕ = if confirm then 0x20 else 0x00
  ok (
      kind ∷ 0x18 ∷ 0x45 ∷ 0xBE ∷ 0x8F ∷ 0x5C ∷ 0x00 ∷ 0x04 ∷ wildcard
      ++ output
      ++ actuator
      ++ 0x00 ∷ [])
