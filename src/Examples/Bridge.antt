-- ===== src/Examples/Bridge.antt =====
-- protocol.py and client.py at concrete inputs.
use hass_comelit_intercom_lo.Base.{
  ◌≡◌, ◌≢◌, refl, true, false, Option, none, [], ◌∷◌, ok, err, protocol_error, arith, Returns, inl,
}
use hass_comelit_intercom_lo.Base.Bytes.{Bytes, Str, pack_le16, unpack_le16}
use hass_comelit_intercom_lo.Base.Dict.{get, str_keys, nat_keys}
use hass_comelit_intercom_lo.Protocol.Header.{encode_header, encode_packet}
use hass_comelit_intercom_lo.Protocol.Channels.{command, parse_command_response, is_json_body}
use hass_comelit_intercom_lo.Client.State.{Client, new_channel, ucfg, uaut}
use hass_comelit_intercom_lo.Client.Dispatch.{
  dispatch, dispatch_data, unsolicited, enqueue, is_pending, opened,
}
use hass_comelit_intercom_lo.Client.Calls.{
  closed_by_device, starved, receive_loop, open_channel_begin, open_channel_end,
}
use hass_comelit_intercom_lo.Client.Routing.{Evolves, dispatch-Handled}
use hass_comelit_intercom_lo.Client.Opens.{
  TakenBy, open_channel-answered, open_channel-answered_stale,
}
use hass_comelit_intercom_lo.Client.Loop.{
  dispatch_all, encode_all, receive_loop_ends, receive_loop-encode_all,
}

abbrev header : Bytes
header = 0x00 ∷ 0x06 ∷ 0x2C ∷ 0x01 ∷ 0x05 ∷ 0x00 ∷ 0x00 ∷ 0x00 ∷ []

header_encoded : encode_header 300 5 ≡ ok header
unfolding encode_header pack_le16
header_encoded = refl

-- A packet for channel 5, with a body of two bytes.
abbrev packet : Bytes
packet = 0x00 ∷ 0x06 ∷ 0x02 ∷ 0x00 ∷ 0x05 ∷ 0x00 ∷ 0x00 ∷ 0x00 ∷ 0xAA ∷ 0xBB ∷ []

packet_encoded : encode_packet 5 (0xAA ∷ 0xBB ∷ []) ≡ ok packet
unfolding encode_packet encode_header pack_le16
packet_encoded = refl

-- What `decode_json_body` is here: it reads no message.
abbrev no_json : Bytes → Option Bytes
no_json body = none

-- A client with a channel of this name that still waits, or with none.
abbrev fresh : Client Bytes
fresh = record {
  connected = true;
  has_writer = true;
  request_id = 4;
  sequence = 0;
  channels = [];
  callbacks = [];
  has_push_callback = false;
  sent = [];
  results = [];
  pushed = [];
}

abbrev ucfg_name : Str
ucfg_name = b'U' ∷ b'C' ∷ b'F' ∷ b'G' ∷ []

abbrev uaut_name : Str
uaut_name = b'U' ∷ b'A' ∷ b'U' ∷ b'T' ∷ []

abbrev timed_out : Client Bytes
timed_out = record fresh { channels = (uaut_name, new_channel uaut_name uaut 4) ∷ [] }

-- The device's answer: sequence number 2 and channel 0x2A17.
abbrev answer : Bytes
answer = 0xCD ∷ 0xAB ∷ 0x02 ∷ 0x00 ∷ 0x04 ∷ 0x00 ∷ 0x00 ∷ 0x00 ∷ 0x17 ∷ 0x2A ∷ 0x00 ∷ 0x00 ∷ []

answer_parsed : parse_command_response answer ≡ ok (command, 2, 0x2A17)
unfolding parse_command_response unpack_le16
answer_parsed = refl

open_channel-answered_example :
    Returns
      (λ c2.
        open_channel_end ucfg_name c2 ≡ ok (opened 0x2A17 3 answer (new_channel ucfg_name ucfg 5)))
      (dispatch no_json 0 answer (open_channel_begin ucfg_name ucfg none 0 none fresh).0)
open_channel-answered_example =
    open_channel-answered no_json ucfg_name ucfg none 0 none fresh answer 2 0x2A17 tt answer_parsed
      (λ e. omega (arith, e)) (omega arith)

uaut_pending : is_pending (new_channel uaut_name uaut 4) ≡ true
unfolding is_pending new_channel
uaut_pending = refl

ucfg_absent : get ucfg_name timed_out.channels ≡ none
unfolding get
ucfg_absent = refl

open_channel-answered_stale_example :
    Returns
      (λ c2.
        (open_channel_end ucfg_name c2 ≡ err protocol_error)
        × TakenBy (opened 0x2A17 3 answer) timed_out.channels c2.channels)
      (dispatch no_json 0 answer (open_channel_begin ucfg_name ucfg none 0 none timed_out).0)
unfolding get
open_channel-answered_stale_example =
    open_channel-answered_stale no_json ucfg_name ucfg none 0 none timed_out answer 2 0x2A17
      (refl, tt) (inl uaut_pending) ucfg_absent answer_parsed (λ e. omega (arith, e)) (omega arith)

dispatch-Handled_example :
    Returns
      (λ c. Evolves timed_out.channels (Client.channels c))
      (dispatch no_json 0 answer timed_out)
dispatch-Handled_example = dispatch-Handled no_json 0 answer timed_out (ground arith)

receive_loop_ends_example : (receive_loop no_json 11 packet fresh).1 ≢ starved
receive_loop_ends_example = receive_loop_ends no_json 11 packet fresh (omega arith)

stream_encoded : encode_all ((5, 0xAA ∷ 0xBB ∷ []) ∷ []) ≡ ok packet
unfolding encode_packet encode_header pack_le16
stream_encoded = refl

-- No channel is open under this id, so the packet goes to nobody.
packet_ignored : dispatch_all no_json ((5, 0xAA ∷ 0xBB ∷ []) ∷ []) fresh ≡ ok fresh
unfolding dispatch dispatch_data unsolicited enqueue get is_json_body
packet_ignored = refl

receive_loop-encode_all_example :
    receive_loop no_json 11 packet fresh ≡ (record fresh { connected = false }, closed_by_device)
receive_loop-encode_all_example =
    receive_loop-encode_all no_json 11 ((5, 0xAA ∷ 0xBB ∷ []) ∷ []) packet fresh fresh (omega arith)
      stream_encoded packet_ignored
