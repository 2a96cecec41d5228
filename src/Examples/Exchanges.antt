-- ===== src/Examples/Exchanges.antt =====
-- door.py and ctpp.py at concrete inputs.
use hass_comelit_intercom_lo.Base.{◌≡◌, refl, true, false, [], ◌∷◌, ok, map, arith}
use hass_comelit_intercom_lo.Base.Bytes.{Bytes, Str, decimal, pack_le16, pack_le32, encode_ascii}
use hass_comelit_intercom_lo.Protocol.Channels.{null_terminated}
use hass_comelit_intercom_lo.Protocol.Door.{
  with_index, encode_open_door, encode_door_init, encode_actuator_init, encode_actuator_open,
}
use hass_comelit_intercom_lo.Client.State.{Channel, Client}
use hass_comelit_intercom_lo.Client.Calls.{is_usable}
use hass_comelit_intercom_lo.Client.Sends.{CanSend, packet_on, with_sent}
use hass_comelit_intercom_lo.Doors.Opening.{Door, open_door_begin, drain_responses, open_door_end}
use hass_comelit_intercom_lo.Doors.Sequence.{open_door_sequence}

abbrev session : Client Bytes
session = record {
  connected = true;
  has_writer = true;
  request_id = 1;
  sequence = 0;
  channels = [];
  callbacks = [];
  has_push_callback = false;
  sent = [];
  results = [];
  pushed = [];
}

abbrev control : Channel
control = record {
  name = b'C' ∷ b'T' ∷ b'P' ∷ b'P' ∷ [];
  channel_type = 16;
  request_id = 1;
  server_channel_id = 0x2A17;
  sequence = 3;
  is_open = true;
  open_event = true;
  open_response_body = [];
  response_queue = [];
}

control-CanSend : CanSend control session
unfolding is_usable
control-CanSend = record { usable = refl; writer = refl; channel_id = omega arith }

abbrev home : Str
home = b'S' ∷ b'B' ∷ b'6' ∷ []

abbrev gate : Door
gate = record {
  id = 0;
  index = 0;
  name = b'g' ∷ [];
  apt_address = b'S' ∷ b'B' ∷ b'1' ∷ [];
  output_index = 2;
  secure_mode = false;
  is_actuator = false;
  module_index = 0;
}

abbrev relay : Door
relay = record gate { is_actuator = true }

-- The two addresses at the end of every message.
abbrev ends : Bytes
ends = 0xFF ∷ 0xFF ∷ 0xFF ∷ 0xFF ∷ b'S' ∷ b'B' ∷ b'6' ∷ b'2' ∷ 0 ∷ b'S' ∷ b'B' ∷ b'1' ∷ 0 ∷ 0 ∷ []

abbrev actuator_init_bytes : Bytes
actuator_init_bytes =
    0xC0 ∷ 0x18 ∷ 0x45 ∷ 0xBE ∷ 0x8F ∷ 0x5C ∷ 0x00 ∷ 0x04 ∷ 0x00 ∷ 0x20 ∷ 0xFF ∷ 0x01 ∷ ends

abbrev opening_bytes : Bytes
opening_bytes = 0x00 ∷ 0x18 ∷ 0x5C ∷ 0x8B ∷ 0x2C ∷ 0x74 ∷ 0x00 ∷ 0x00 ∷ ends

abbrev confirm_bytes : Bytes
confirm_bytes = 0x20 ∷ 0x18 ∷ 0x5C ∷ 0x8B ∷ 0x2C ∷ 0x74 ∷ 0x00 ∷ 0x00 ∷ ends

abbrev door_init_bytes : Bytes
door_init_bytes =
    0xC0 ∷ 0x18 ∷ 0x70 ∷ 0xAB ∷ 0x29 ∷ 0x9F ∷ 0x00 ∷ 0x0D ∷ 0x00 ∷ 0x2D ∷ b'S' ∷ b'B' ∷ b'1' ∷ 0 ∷ 0
    ∷ 2 ∷ 0 ∷ 0 ∷ 0 ∷ ends

abbrev actuator_opening_bytes : Bytes
actuator_opening_bytes = 0x00 ∷ 0x18 ∷ 0x45 ∷ 0xBE ∷ 0x8F ∷ 0x5C ∷ 0x00 ∷ 0x04 ∷ ends

abbrev actuator_confirm_bytes : Bytes
actuator_confirm_bytes = 0x20 ∷ 0x18 ∷ 0x45 ∷ 0xBE ∷ 0x8F ∷ 0x5C ∷ 0x00 ∷ 0x04 ∷ ends

actuator_init_encoded : encode_actuator_init home 2 gate.apt_address ≡ ok actuator_init_bytes
unfolding encode_actuator_init null_terminated with_index encode_ascii decimal
actuator_init_encoded = refl

opening_encoded : encode_open_door 0x1800 home 2 gate.apt_address ≡ ok opening_bytes
unfolding encode_open_door pack_le16 null_terminated with_index encode_ascii decimal
opening_encoded = refl

confirm_encoded : encode_open_door 0x1820 home 2 gate.apt_address ≡ ok confirm_bytes
unfolding encode_open_door pack_le16 null_terminated with_index encode_ascii decimal
confirm_encoded = refl

door_init_encoded : encode_door_init home 2 gate.apt_address ≡ ok door_init_bytes
unfolding encode_door_init pack_le32 null_terminated with_index encode_ascii decimal
door_init_encoded = refl

actuator_opening_encoded :
    encode_actuator_open home 2 gate.apt_address false ≡ ok actuator_opening_bytes
unfolding encode_actuator_open null_terminated with_index encode_ascii decimal
actuator_opening_encoded = refl

actuator_confirm_encoded :
    encode_actuator_open home 2 gate.apt_address true ≡ ok actuator_confirm_bytes
unfolding encode_actuator_open null_terminated with_index encode_ascii decimal
actuator_confirm_encoded = refl

open_door_sequence_example :
    (open_door_begin control home gate session ≡ (
      with_sent session
          (map (packet_on control) (opening_bytes ∷ confirm_bytes ∷ door_init_bytes ∷ [])),
      ok tt,
    ))
    × (open_door_end control home gate session ≡ (
      with_sent
          (drain_responses control.name session)
          (map (packet_on control) (opening_bytes ∷ confirm_bytes ∷ [])),
      ok tt,
    ))
open_door_sequence_example =
    open_door_sequence control home gate session session actuator_init_bytes opening_bytes
      confirm_bytes door_init_bytes control-CanSend control-CanSend refl actuator_init_encoded
      opening_encoded confirm_encoded door_init_encoded
      (omega arith, (omega arith, (omega arith, tt)))

-- The time stamp 0xFF000005 moves on to 5.
abbrev first_ack : Bytes
first_ack =
    0x00 ∷ 0x18 ∷ 5 ∷ 0 ∷ 0 ∷ 0 ∷ 0x00 ∷ 0x00 ∷ 0xFF ∷ 0xFF ∷ 0xFF ∷ 0xFF ∷ b'S' ∷ b'B' ∷ b'6'
    ∷ b'1' ∷ 0 ∷ b'S' ∷ b'B' ∷ b'6' ∷ 0 ∷ 0 ∷ []

abbrev confirm_ack : Bytes
confirm_ack =
    0x20 ∷ 0x18 ∷ 5 ∷ 0 ∷ 0 ∷ 0 ∷ 0x00 ∷ 0x00 ∷ 0xFF ∷ 0xFF ∷ 0xFF ∷ 0xFF ∷ b'S' ∷ b'B' ∷ b'6'
    ∷ b'1' ∷ 0 ∷ b'S' ∷ b'B' ∷ b'6' ∷ 0 ∷ 0 ∷ []
