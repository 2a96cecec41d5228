-- ===== src/Examples/Events.antt =====
-- vip_listener.py at concrete inputs.
use hass_comelit_intercom_lo.Base.{ℕ, List, leb, some, ok}
use hass_comelit_intercom_lo.Base.Bytes.{pack_le16, pack_le32, pack_be16, encode_ascii}
use hass_comelit_intercom_lo.Protocol.Channels.{null_terminated}
use hass_comelit_intercom_lo.Protocol.Video.{addresses, twice_terminated, build_ctpp_video_msg}
use hass_comelit_intercom_lo.Vip.Supervisor.{
  Supervisor, on_crash, after_crashes, count_recent, on_crash-escalates,
}
use hass_comelit_intercom_lo.Vip.Parse.{parse_ctpp_message}
use hass_comelit_intercom_lo.Vip.RoundTrip.{parse_ctpp_message-build_ctpp_video_msg}
use hass_comelit_intercom_lo.Base.{◌≡◌, refl, true, false, none, [], ◌∷◌, map, arith, Returns}
use hass_comelit_intercom_lo.Base.Bytes.{Bytes, Str, decimal}
use hass_comelit_intercom_lo.Client.State.{Channel, Client}
use hass_comelit_intercom_lo.Client.Calls.{is_usable}
use hass_comelit_intercom_lo.Vip.Parse.{CtppMessage}
use hass_comelit_intercom_lo.Vip.Listener as Listeners
use hass_comelit_intercom_lo.Vip.Listener.{Vip, process_parsed, process_message, vip_address}
use hass_comelit_intercom_lo.Vip.Acks.{
  CanAck, ack_packet, expected_acks, after_sending, process_parsed_acks,
}
use hass_comelit_intercom_lo.Vip.Spacing.{IsSpaced, process_message-IsSpaced}

abbrev client : Client Bytes
client = record {
  connected = true;
  has_writer = true;
  request_id = 1;
  sequence = 0;
  channels = [];
  callbacks = [];
  has_push_callback = false;
  sent = [];
  results = [];
  pushed = [];
}

abbrev apartment : Str
apartment = b'S' ∷ b'B' ∷ b'0' ∷ b'6' ∷ []

abbrev ctpp_channel : Channel
ctpp_channel = record {
  name = b'C' ∷ b'T' ∷ b'P' ∷ b'P' ∷ [];
  channel_type = 16;
  request_id = 1;
  server_channel_id = 0x2A17;
  sequence = 3;
  is_open = true;
  open_event = true;
  open_response_body = [];
  response_queue = [];
}

listener : Vip
unfolding Listeners.init
listener = Listeners.init apartment 1 ctpp_channel 1000

listener-IsSpaced : IsSpaced listener
unfolding listener
listener-IsSpaced = record { noted = tt; spaced = tt }

-- A ring: an init of a call, from an entrance.
abbrev ringing : Bytes
ringing = 0xC0 ∷ 0x18 ∷ 1 ∷ 2 ∷ 3 ∷ 4 ∷ 0x00 ∷ 0x28 ∷ 0x00 ∷ 0x01 ∷ b'S' ∷ b'B' ∷ b'1' ∷ 0 ∷ []

process_message-IsSpaced_example :
    Returns (λ r. IsSpaced r.0) (process_message 20000 20001 ringing listener client)
process_message-IsSpaced_example =
    process_message-IsSpaced 20000 20001 ringing listener client listener-IsSpaced

abbrev renewal : CtppMessage
renewal = record {
  prefix = 0x1860;
  timestamp = 77;
  action = 0x0010;
  flags = none;
  addresses = [];
  raw = [];
}

listener-CanAck : CanAck listener client
unfolding listener is_usable vip_address decimal
listener-CanAck = record {
  usable = refl;
  writer = refl;
  channel_id = omega arith;
  vip_ascii = ground arith;
  apt_ascii = ground arith;
  room = omega arith;
  ack_ts = omega arith;
}

process_parsed_acks_example :
    (process_parsed 20000 20001 renewal listener client).1
    ≡ after_sending client (map (ack_packet listener) (expected_acks listener renewal))
process_parsed_acks_example =
    process_parsed_acks 20000 20001 renewal listener client listener-CanAck

-- A codec message of the client's, from SB061 to SB1.
abbrev codec : Bytes
codec =
    0x40 ∷ 0x18 ∷ 1 ∷ 2 ∷ 3 ∷ 4 ∷ 0x00 ∷ 0x08 ∷ 0x00 ∷ 0x03 ∷ 7 ∷ 0xFF ∷ 0xFF ∷ 0xFF ∷ 0xFF ∷ b'S'
    ∷ b'B' ∷ b'0' ∷ b'6' ∷ b'1' ∷ 0 ∷ b'S' ∷ b'B' ∷ b'1' ∷ 0 ∷ 0 ∷ []

codec_built :
    build_ctpp_video_msg 0x1840 67305985 0x0008 0x0003
      (b'S' ∷ b'B' ∷ b'0' ∷ b'6' ∷ b'1' ∷ [])
      (b'S' ∷ b'B' ∷ b'1' ∷ [])
      (7 ∷ [])
    ≡ ok codec
unfolding build_ctpp_video_msg addresses null_terminated twice_terminated pack_le16 pack_le32
    pack_be16 encode_ascii
codec_built = refl

parse_ctpp_message-build_ctpp_video_msg_example :
    parse_ctpp_message codec
    ≡ ok (
        some (record {
          prefix = 0x1840;
          timestamp = 67305985;
          action = 0x0008;
          flags = some 0x0003;
          addresses = (b'S' ∷ b'B' ∷ b'0' ∷ b'6' ∷ b'1' ∷ []) ∷ (b'S' ∷ b'B' ∷ b'1' ∷ []) ∷ [];
          raw = codec;
        }))
parse_ctpp_message-build_ctpp_video_msg_example =
    parse_ctpp_message-build_ctpp_video_msg 0x1840 67305985 0x0008 0x0003 (b'0' ∷ b'6' ∷ b'1' ∷ [])
      (b'1' ∷ []) (7 ∷ []) codec (ground arith) (ground arith) (ground arith) codec_built

abbrev crashes : List ℕ
crashes = 50000 ∷ 40000 ∷ 30000 ∷ 20000 ∷ 10000 ∷ []

abbrev supervisor : Supervisor
supervisor = record { running = true; restart_times = []; restart_count = 0 }

on_crash-escalates_example :
    (on_crash 55000 (after_crashes supervisor crashes)).1 ≡ leb 5 (count_recent 55000 crashes)
on_crash-escalates_example =
    on_crash-escalates 55000 supervisor crashes refl
      (omega arith, (omega arith, (omega arith, (omega arith, (omega arith, tt)))))
