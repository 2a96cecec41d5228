-- ===== src/Examples/Calls.antt =====
-- video_call.py at concrete inputs.
use hass_comelit_intercom_lo.VideoCall.Start.{reset_some}
use hass_comelit_intercom_lo.VideoCall.Start.{reset_server}
use hass_comelit_intercom_lo.VideoCall.Start.{negotiate_codec}
use hass_comelit_intercom_lo.VideoCall.Start.{link_and_configure}
use hass_comelit_intercom_lo.VideoCall.Start.{init_sequence}
use hass_comelit_intercom_lo.VideoCall.Start.{finish_renewal}
use hass_comelit_intercom_lo.VideoCall.Start.{call_init_messages}
use hass_comelit_intercom_lo.VideoCall.Start.{add_placeholder}
use hass_comelit_intercom_lo.VideoCall.Start.{accept_call}
use hass_comelit_intercom_lo.VideoCall.Session.{wait_for_open}
use hass_comelit_intercom_lo.VideoCall.Session.{wait_for}
use hass_comelit_intercom_lo.VideoCall.Session.{wait}
use hass_comelit_intercom_lo.VideoCall.Session.{read}
use hass_comelit_intercom_lo.VideoCall.Session.{call_client}
use hass_comelit_intercom_lo.VideoCall.Exchange.{response_of}
use hass_comelit_intercom_lo.VideoCall.Exchange.{link_round}
use hass_comelit_intercom_lo.VideoCall.Exchange.{exchange}
use hass_comelit_intercom_lo.VideoCall.Exchange.{do_round}
use hass_comelit_intercom_lo.VideoCall.Exchange.{codec_round}
use hass_comelit_intercom_lo.VideoCall.Exchange.{action_of}
use hass_comelit_intercom_lo.Protocol.Video.{encode_video_config}
use hass_comelit_intercom_lo.Protocol.Video.{encode_rtpc_link}
use hass_comelit_intercom_lo.Protocol.Video.{encode_call_init}
use hass_comelit_intercom_lo.Protocol.Video.{encode_call_ack}
use hass_comelit_intercom_lo.Protocol.Video.{encode_answer_peer}
use hass_comelit_intercom_lo.Protocol.Video.{build_ctpp_video_msg}
use hass_comelit_intercom_lo.Protocol.Door.{with_index}
use hass_comelit_intercom_lo.Protocol.Door.{encode_ctpp_init}
use hass_comelit_intercom_lo.Doors.Handshake.{send_ack_pair}
use hass_comelit_intercom_lo.Doors.Handshake.{read_response_ctpp}
use hass_comelit_intercom_lo.Doors.Handshake.{ctpp_init_end}
use hass_comelit_intercom_lo.Doors.Handshake.{ctpp_init_begin}
use hass_comelit_intercom_lo.Client.State.{new_channel}
use hass_comelit_intercom_lo.Client.Sends.{and_then}
use hass_comelit_intercom_lo.Client.Calls.{take_response}
use hass_comelit_intercom_lo.Client.Calls.{register_placeholder_channel}
use hass_comelit_intercom_lo.Client.Calls.{read_response}
use hass_comelit_intercom_lo.Base.Dict.{put}
use hass_comelit_intercom_lo.Base.Bytes.{pack_byte}
use hass_comelit_intercom_lo.Base.Bytes.{pack_be32}
use hass_comelit_intercom_lo.Base.Bytes.{decimal}
use hass_comelit_intercom_lo.Client.Calls.{send}
use hass_comelit_intercom_lo.Protocol.Header.{encode_header}
use hass_comelit_intercom_lo.Protocol.Header.{encode_packet}
use hass_comelit_intercom_lo.Client.Calls.{send_encoded}
use hass_comelit_intercom_lo.Client.Calls.{send_binary}
use hass_comelit_intercom_lo.Client.Sends.{send_payload}
use hass_comelit_intercom_lo.VideoCall.Session.{send_message}
use hass_comelit_intercom_lo.VideoCall.Exchange.{send_call_ack}
use hass_comelit_intercom_lo.VideoCall.Start.{split_last}
use hass_comelit_intercom_lo.Base.{
  ◌+◌, ◌*◌, ◌≡◌, ◌≢◌, refl, true, false, Option, All, none, some, List, [], ◌∷◌, map, ok, arith,
  if◌then◌else◌,
}
use hass_comelit_intercom_lo.Base.Bytes.{Bytes, Str, pack_le16, pack_le32, pack_be16, encode_ascii}
use hass_comelit_intercom_lo.Base.Dict.{get, str_keys}
use hass_comelit_intercom_lo.Protocol.Channels.{null_terminated}
use hass_comelit_intercom_lo.Protocol.Video.{
  addresses, twice_terminated, padded, encode_call_response_ack, encode_door_open_during_video,
}
use hass_comelit_intercom_lo.Client.State.{Channel}
use hass_comelit_intercom_lo.Client.Calls.{is_usable, get_channel}
use hass_comelit_intercom_lo.Client.Sends.{CanSend, packet_on, with_sent}
use hass_comelit_intercom_lo.VideoCall.Session.{Call}
use hass_comelit_intercom_lo.VideoCall.Session.{init as new_session}
use hass_comelit_intercom_lo.VideoCall.Exchange.{run_codec_exchange, ack_device_rtpc_link}
use hass_comelit_intercom_lo.VideoCall.Cleanup.{
  ctpp_name, cspb_name, udpm_name, rtpc_name, rtpc2_name, rtpc_device_name, rtpc_device_reest_name,
  video_channel_names, cleanup,
}
use hass_comelit_intercom_lo.VideoCall.Monitor.{
  Monitor, acknowledge, goes_on, on_request, open_door_on_ctpp,
}
use hass_comelit_intercom_lo.VideoCall.Start.{call_ts, reestablish}
use hass_comelit_intercom_lo.VideoCall.Counters.{Within, reestablish-Within}
use hass_comelit_intercom_lo.VideoCall.Quiet.{IsQuiet, ack_bytes}
use hass_comelit_intercom_lo.VideoCall.Acks.{last_of}
use hass_comelit_intercom_lo.VideoCall.Codec.{codec_counters, run_codec_exchange_acks}
use hass_comelit_intercom_lo.VideoCall.Released.{cleanup-IsReleased}
use hass_comelit_intercom_lo.VideoCall.Sharing.{open_door_on_ctpp-reuses}

-- A negotiation message and an acceptance of the call, and the device's link.
abbrev negotiation : Bytes
negotiation = 0x40 ∷ 0x18 ∷ 0 ∷ 0 ∷ 0 ∷ 0 ∷ 0x00 ∷ 0x08 ∷ []

abbrev acceptance : Bytes
acceptance = 0x40 ∷ 0x18 ∷ 0 ∷ 0 ∷ 0 ∷ 0 ∷ 0x00 ∷ 0x02 ∷ []

abbrev link : Bytes
link = 0x60 ∷ 0x18 ∷ 0 ∷ 0 ∷ 0 ∷ 0 ∷ 0x00 ∷ 0x0A ∷ []

abbrev control : List Bytes → Channel
control responses = record {
  name = b'C' ∷ b'T' ∷ b'P' ∷ b'P' ∷ [];
  channel_type = 7;
  request_id = 1;
  server_channel_id = 0x2A17;
  sequence = 3;
  is_open = true;
  open_event = true;
  open_response_body = [];
  response_queue = responses;
}

abbrev call : List Bytes → Call Bytes
call responses = record {
  client = record {
    connected = true;
    has_writer = true;
    request_id = 1;
    sequence = 0;
    channels = ((control responses).name, control responses) ∷ [];
    callbacks = [];
    has_push_callback = false;
    sent = [];
    results = [];
    pushed = [];
  };
  waits = [];
  session = record (new_session true none) { active = true; call_counter = 0x00051234 };
}

call-CanSend : (responses : List Bytes) → CanSend (control []) (call responses).client
unfolding is_usable
call-CanSend responses = record { usable = refl; writer = refl; channel_id = omega arith }

call-IsQuiet : (responses : List Bytes) → IsQuiet (control []) responses (call responses)
unfolding get
call-IsQuiet responses = record {
  alone = refl;
  sends = call-CanSend responses;
  registered = control responses;
  found = refl;
  queued = refl;
}

abbrev home : Str
home = b'S' ∷ b'B' ∷ b'6' ∷ []

abbrev entrance : Str
entrance = b'S' ∷ b'B' ∷ b'1' ∷ []

run_codec_exchange_acks_example :
    let responses = negotiation ∷ acceptance ∷ [] in
    let acks = codec_counters 10 responses 0x00051234 in
    let r = run_codec_exchange (control []) home entrance 0x00051234 (call responses) in
    (r.1 ≡ ok (last_of 0x00051234 acks))
    × (r.0.client.sent ≡ map (λ k. packet_on (control []) (ack_bytes home entrance k)) acks)
    × (r.0.session ≡ (call responses).session)
run_codec_exchange_acks_example =
    run_codec_exchange_acks (control []) home entrance (negotiation ∷ acceptance ∷ []) 0x00051234
      (call (negotiation ∷ acceptance ∷ [])) (call-IsQuiet (negotiation ∷ acceptance ∷ []))
      (omega arith, (omega arith, (omega arith, tt)))
      (omega arith, (omega arith, (omega arith, tt))) (omega arith) (omega arith)

cleanup-IsReleased_example :
    let s = call [] in
    let c' = (cleanup s).client in
    let shared : Str → Option Channel =
      λ name. if s.session.owns_ctpp then none else get name s.client.channels in
    (get ctpp_name c'.channels ≡ shared ctpp_name)
    × (get cspb_name c'.channels ≡ shared cspb_name)
    × All
        (λ name. get name c'.channels ≡ none)
        (udpm_name ∷ rtpc_name ∷ rtpc2_name ∷ rtpc_device_name ∷ rtpc_device_reest_name ∷ [])
    × ((name : Str)
        → All (λ other. other ≢ name) video_channel_names
        → get name c'.channels ≡ get name s.client.channels)
    × (c'.sent ≡ [])
    × (c'.connected ≡ true)
    × ((cleanup s).session.active ≡ false)
    × ((cleanup s).session.rtp_receiver ≡ none)
    × ((cleanup s).session.rtsp_server
        ≡ (if s.session.external_rtsp then s.session.rtsp_server else none))
unfolding get
cleanup-IsReleased_example = cleanup-IsReleased (call []) (refl, tt)

abbrev monitor : Monitor
monitor = record {
  channel = control [];
  our_addr = home;
  entrance_addr = entrance;
  rtpc1_server_id = 0x2A20;
  media_req_id = 0x2A21;
}

abbrev door_command : Bytes
door_command =
    64 ∷ 24 ∷ 52 ∷ 18 ∷ 6 ∷ 0 ∷ 0 ∷ 13 ∷ 0 ∷ 45 ∷ 83 ∷ 66 ∷ 49 ∷ 0 ∷ 0 ∷ 0 ∷ 0 ∷ 0 ∷ 0 ∷ 0 ∷ 1 ∷ 0
    ∷ 0 ∷ 0 ∷ 255 ∷ 255 ∷ 255 ∷ 255 ∷ 83 ∷ 66 ∷ 54 ∷ 0 ∷ 0 ∷ 0 ∷ 0 ∷ 0 ∷ 0 ∷ 0 ∷ 83 ∷ 66 ∷ 0 ∷ 0 ∷ 0
    ∷ 0 ∷ 0 ∷ 0 ∷ 0 ∷ 0 ∷ []

door_command_encoded :
    encode_door_open_during_video home entrance 0x00061234 1 (some (b'S' ∷ b'B' ∷ []))
    ≡ ok door_command
unfolding encode_door_open_during_video padded pack_le16 pack_le32 pack_be16 encode_ascii
door_command_encoded = refl

acknowledgement_encoded :
    encode_call_response_ack home entrance 0x00061234 0x1800
    ≡ ok (ack_bytes home entrance 0x00061234)
unfolding encode_call_response_ack addresses null_terminated twice_terminated pack_le16 pack_le32
    pack_be16 encode_ascii
acknowledgement_encoded = refl

control_found : get_channel (control []).name (call []).client ≡ some (control [])
unfolding get_channel get
control_found = refl

open_door_on_ctpp-reuses_example :
    let opened = open_door_on_ctpp home entrance 1 (some (b'S' ∷ b'B' ∷ [])) (call []) in
    let acked = on_request monitor 1000 0 0 acknowledge 0x00051234 opened.0 in
    (opened.1 ≡ ok tt)
    × (acked.0.client
        ≡ with_sent (call []).client (
            packet_on (control []) door_command
            ∷ packet_on (control []) (ack_bytes home entrance 0x00061234)
            ∷ []))
    × (acked.1 ≡ goes_on 0x00061234)
    × (acked.0.session.call_counter ≡ 0x00061234)
open_door_on_ctpp-reuses_example =
    open_door_on_ctpp-reuses monitor 1000 0 0 1 0x00051234 (some (b'S' ∷ b'B' ∷ [])) door_command
      (ack_bytes home entrance 0x00061234) (call []) control_found refl refl (call-CanSend [])
      door_command_encoded acknowledgement_encoded (omega arith) (omega arith)

renewal_returns :
    (reestablish (control []) home entrance 0x2A20 0x2A21 1000 0 0 5 (call (acceptance ∷ []))).1
    ≡ ok 263145
unfolding reestablish split_last send_call_ack send_message send_payload encode_call_response_ack
    pack_le16 pack_le32 pack_be16 addresses null_terminated encode_ascii twice_terminated
    send_binary send_encoded encode_packet encode_header send decimal pack_be32 pack_byte get put
    is_usable read_response register_placeholder_channel take_response and_then new_channel
    ctpp_init_begin ctpp_init_end read_response_ctpp send_ack_pair encode_ctpp_init with_index
    build_ctpp_video_msg encode_answer_peer encode_call_ack encode_call_init encode_rtpc_link
    encode_video_config ack_device_rtpc_link action_of codec_round do_round exchange link_round
    response_of run_codec_exchange call_client read wait wait_for wait_for_open accept_call
    add_placeholder call_init_messages finish_renewal init_sequence link_and_configure
    negotiate_codec reset_server reset_some new_session
renewal_returns = refl

reestablish-Within_example :
    Within (call_ts 1000 + 4 * 0x00010000) (call_ts 1000 + 4 * 0x00010000 + 15 * 0x01010000) 263145
reestablish-Within_example =
    reestablish-Within (control []) home entrance 0x2A20 0x2A21 1000 0 0 5 (call (acceptance ∷ []))
      263145 renewal_returns
