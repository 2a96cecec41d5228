-- ===== src/VideoCall/Start.antt =====
-- video_call.py: `start`, and `_inline_reestablish`, which repeats its second half. `now` is the
-- clock in seconds, and `secs` and `frac` that of the sender reports.
use hass_comelit_intercom_lo.Base.{
  ℕ, ◌+◌, ◌-◌, ◌%◌, ◌&&◌, Bool, true, false, leb, Option, none, some, [], ◌∷◌, Result, ok, err,
  value_error, video_call_error, length, if◌then◌else◌,
}
use hass_comelit_intercom_lo.Base.Bytes.{Bytes, Str, unpack_le16}
use hass_comelit_intercom_lo.Client.State.{Channel, uaut}
use hass_comelit_intercom_lo.Client.Calls.{get_channel, register_placeholder_channel}
use hass_comelit_intercom_lo.Protocol.Video.{
  encode_call_init, encode_call_ack, encode_rtpc_link, encode_video_config,
  encode_call_response_ack, encode_answer_peer,
}
use hass_comelit_intercom_lo.Models.{DeviceConfig, our_address, entrance_address}
use hass_comelit_intercom_lo.Doors.Handshake.{ctpp_init_begin, ctpp_init_end}
use hass_comelit_intercom_lo.Receiver.Queues.{Receiver, attach_rtsp_queues}
use hass_comelit_intercom_lo.Receiver.Queues.{init as new_receiver}
use hass_comelit_intercom_lo.Receiver.Packets.{start_control, set_media_req_id}
use hass_comelit_intercom_lo.Rtsp.Server.{Server}
use hass_comelit_intercom_lo.Rtsp.Session.{reset}
use hass_comelit_intercom_lo.VideoCall.Session.{
  VideoSession, Act, ◌>>=◌, ◌>>◌, return, lift, set_session, call_client, now_state, with_client,
  send_message, wait, read, open_channel, wait_for_open, ctr_incr_byte4, ctr_incr_byte5,
}
use hass_comelit_intercom_lo.VideoCall.Exchange.{
  send_call_ack, run_codec_exchange, ack_device_rtpc_link,
}
use hass_comelit_intercom_lo.VideoCall.Cleanup.{
  ctpp_name, cspb_name, udpm_name, rtpc_name, rtpc2_name, rtpc_device_name, rtpc_device_reest_name,
  cleanup,
}

-- int(our_addr[-1]), and the text before it. Only the ten ASCII digits are read as a number.
unfoldable pub split_last : Str → Result (Str × ℕ)
split_last [] = err value_error
split_last (c ∷ []) = if leb b'0' c && leb c b'9' then ok ([], c - b'0') else err value_error
split_last (c ∷ d ∷ rest) = elim (split_last (d ∷ rest)) [
  | err e ↦ err e
  | ok (before, digit) ↦ ok (c ∷ before, digit)
]

-- The two bytes of the token, where the answer is long enough.
unfoldable pub udpm_token_of : Bytes → Result ℕ
udpm_token_of body = if leb 18 (length body) then unpack_le16 body 16 else ok 0

-- (init_ts + 1) & 0xFFFFFFFF
abbrev pub call_ts : ℕ → ℕ
call_ts init_ts = (init_ts + 1) % 4294967296

abbrev pub video_width : ℕ
video_width = 800

abbrev pub video_height : ℕ
video_height = 480

abbrev pub video_fps : ℕ
video_fps = 16

-- The fields once the call is accepted. What the receiver has got meanwhile is kept.
unfoldable pub activate : ℕ → ℕ → VideoSession → VideoSession
activate media_req_id counter v = record v {
  rtp_receiver = (elim v.rtp_receiver [
    | none ↦ none
    | some receiver ↦ some (set_media_req_id media_req_id receiver)
  ]);
  call_counter = counter;
  tcp_task = true;
  ctpp_task = true;
  active = true;
}

abbrev pub require_open : Bool → Result (Unit {0})
require_open device_open = if device_open then ok tt else err video_call_error

module _ {Msg : Type 0} where
  -- await ctpp_init_sequence(...)
  unfoldable pub init_sequence : Channel → Str → ℕ → Str → ℕ → Act Msg (Unit {0})
  init_sequence ch apt_addr apt_sub our_addr now = do
    call_client (ctpp_init_begin ch apt_addr apt_sub (some now))
    wait
    call_client (ctpp_init_end ch apt_addr our_addr (some now) true)

  unfoldable pub add_placeholder : Str → Act Msg (Unit {0})
  add_placeholder name s = (with_client s (register_placeholder_channel name s.client), ok tt)

  -- The CTPP channel that the coordinator has opened, or one of the session's own.
  unfoldable pub reuse_ctpp : Channel → Act Msg Channel
  reuse_ctpp ch = do
    set_session λ v. record v { owns_ctpp = false }
    s ← now_state
    elim (get_channel cspb_name s.client) as (λ o. Act Msg Channel) [
      | some cspb ↦ return ch
      | none ↦ open_channel cspb_name uaut none 0 none >> return ch
    ]

  unfoldable pub own_ctpp : DeviceConfig → ℕ → Act Msg Channel
  unfolding init_sequence
  own_ctpp config now = do
    set_session λ v. record v { owns_ctpp = true }
    ch ← open_channel ctpp_name uaut (some (our_address config)) 0 none
    open_channel cspb_name uaut none 0 none
    init_sequence ch config.apt_address config.apt_subaddress (our_address config) now
    return ch

  unfoldable pub find_ctpp : DeviceConfig → ℕ → Act Msg Channel
  unfolding reuse_ctpp own_ctpp
  find_ctpp config now = do
    s ← now_state
    elim (get_channel ctpp_name s.client) as (λ o. Act Msg Channel) [
      | some ch ↦ reuse_ctpp ch
      | none ↦ own_ctpp config now
    ]

  -- The server that the coordinator keeps is reset, and one of the session's own is started.
  unfoldable pub prepare_server : ℕ → ℕ → Result Server → Act Msg Server
  prepare_server secs frac started = do
    s ← now_state
    server ← lift (elim s.session.rtsp_server as (λ o. Result Server) [
      | some server ↦ if s.session.external_rtsp then reset secs frac server else started
      | none ↦ started
    ])
    set_session λ v. record v { rtsp_server = some server }
    return server

  unfoldable pub reset_some : ℕ → ℕ → Option Server → Act Msg (Unit {0})
  reset_some secs frac none = return tt
  reset_some secs frac (some server) = do
    server' ← lift (reset secs frac server)
    set_session λ v. record v { rtsp_server = some server' }

  -- if self._rtsp_server: self._rtsp_server.reset(renewal=True)
  unfoldable pub reset_server : ℕ → ℕ → Act Msg (Unit {0})
  unfolding reset_some
  reset_server secs frac = do s ← now_state; reset_some secs frac s.session.rtsp_server

  -- The call's first message, and the codec exchange, which gives the counter behind it.
  unfoldable pub call_init_messages : Channel → Str → Str → ℕ → Act Msg (Unit {0})
  call_init_messages ch our_addr entrance_addr now =
      send_message ch (encode_call_init our_addr entrance_addr (call_ts now))

  unfoldable pub negotiate_codec : Channel → Str → Str → ℕ → Act Msg ℕ
  negotiate_codec ch our_addr entrance_addr now = do
    read ch.name
    let counter : ℕ = call_ts now + ctr_incr_byte4
    send_message ch (encode_call_ack our_addr entrance_addr counter)
    run_codec_exchange ch our_addr entrance_addr counter

  -- The link to the first RTPC channel and the video configuration for the second.
  unfoldable pub link_and_configure : Channel → Str → Str → ℕ → ℕ → ℕ → Act Msg ℕ
  link_and_configure ch our_addr entrance_addr rtpc1_server_id media_req_id counter = do
    send_message ch (encode_rtpc_link our_addr entrance_addr rtpc1_server_id counter false)
    let counter' : ℕ = counter + ctr_incr_byte4
    send_message ch (
        encode_video_config our_addr entrance_addr media_req_id counter' video_width video_height
          video_fps)
    return counter'

  -- The device's link is acknowledged, and HANGUP/ZERO says that the call is accepted.
  unfoldable pub accept_call : Channel → Str → Str → ℕ → Act Msg ℕ
  accept_call ch our_addr entrance_addr counter = do
    linked ← ack_device_rtpc_link ch our_addr entrance_addr counter
    let counter' : ℕ = linked + ctr_incr_byte4
    send_message ch (encode_call_response_ack our_addr entrance_addr counter' 0x1840)
    return counter'

  -- The UDP side: a receiver on the server's queues, its socket opened.
  unfoldable pub start_receiver : ℕ → ℕ → ℕ → ℕ → Result Server → Act Msg Receiver
  unfolding prepare_server
  start_receiver control_req_id udpm_token secs frac started = do
    server ← prepare_server secs frac started
    receiver ← lift (
        start_control (
          attach_rtsp_queues server.nal_queue server.audio_queue (some server.rtp_queue)
            (new_receiver control_req_id 0 udpm_token)))
    set_session λ v. record v { rtp_receiver = some receiver }
    return receiver

  -- The body of the `try` block.
  unfoldable pub start_steps : DeviceConfig → ℕ → ℕ → ℕ → Result Server → Act Msg (Unit {0})
  unfolding find_ctpp add_placeholder call_init_messages start_receiver negotiate_codec
      link_and_configure accept_call activate
  start_steps config now secs frac started = do
    let our_addr : Str = our_address config
    let entrance_addr : Str = entrance_address config
    ch ← find_ctpp config now
    add_placeholder rtpc_device_name
    call_init_messages ch our_addr entrance_addr now
    udpm ← open_channel udpm_name uaut none 1 none
    udpm_token ← lift (udpm_token_of udpm.open_response_body)
    start_receiver udpm.server_channel_id udpm_token secs frac started
    counter ← negotiate_codec ch our_addr entrance_addr now
    rtpc1 ← open_channel rtpc_name uaut none 1 none
    rtpc2 ← open_channel rtpc2_name uaut none 1 (some rtpc_name)
    let media_req_id : ℕ = rtpc2.server_channel_id
    configured ←
        link_and_configure ch our_addr entrance_addr rtpc1.server_channel_id media_req_id counter
    device_open ← wait_for_open rtpc_device_name
    lift (require_open device_open)
    accepted ← accept_call ch our_addr entrance_addr configured
    set_session (activate media_req_id accepted)
    wait
    set_session λ v. record v { timeout_task = v.auto_timeout }

  -- `start`: whatever the body raises, the session is cleaned up and a `VideoCallError` raised.
  unfoldable pub start : DeviceConfig → ℕ → ℕ → ℕ → Result Server → Act Msg (Unit {0})
  unfolding start_steps
  start config now secs frac started s =
      let (s', r) = start_steps config now secs frac started s in
      elim r [ ok done ↦ (s', ok tt) | err e ↦ (cleanup s', err video_call_error) ]

  -- The end of a renewal: the peer message, and the reset of the server's queues.
  unfoldable pub finish_renewal : Channel → Str → Str → ℕ → ℕ → ℕ → Act Msg ℕ
  finish_renewal ch our_addr entrance_addr secs frac accepted = do
    let renewed : ℕ = accepted + ctr_incr_byte4
    send_message ch (encode_answer_peer our_addr entrance_addr renewed true)
    reset_server secs frac
    return renewed

  -- `_inline_reestablish`: the acknowledgement of CALL_END, then the call from its start again. The
  -- device's RTPC channel is waited for, and may be missing.
  unfoldable pub reestablish : Channel → Str → Str → ℕ → ℕ → ℕ → ℕ → ℕ → ℕ → Act Msg ℕ
  unfolding init_sequence add_placeholder call_init_messages negotiate_codec link_and_configure
      accept_call finish_renewal
  reestablish ch our_addr entrance_addr rtpc1_server_id media_req_id now secs frac counter = do
    (apt_addr, apt_sub) ← lift (split_last our_addr)
    send_call_ack ch our_addr entrance_addr (counter + ctr_incr_byte5)
    init_sequence ch apt_addr apt_sub our_addr now
    add_placeholder rtpc_device_reest_name
    call_init_messages ch our_addr entrance_addr now
    exchanged ← negotiate_codec ch our_addr entrance_addr now
    configured ← link_and_configure ch our_addr entrance_addr rtpc1_server_id media_req_id exchanged
    wait_for_open rtpc_device_reest_name
    accepted ← accept_call ch our_addr entrance_addr configured
    finish_renewal ch our_addr entrance_addr secs frac accepted
