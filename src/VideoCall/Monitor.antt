-- ===== src/VideoCall/Monitor.antt =====
-- video_call.py: what happens in a running session. A round of `_tcp_video_loop`, a round of
-- `_ctpp_monitor_loop`, `_send_answer_sequence`, and `async_open_door_on_ctpp`.
use hass_comelit_intercom_lo.Base.{
  ℕ, ◌+◌, ◌==◌, ◌||◌, ◌&&◌, not, Bool, false, leb, Option, none, some, Result, ok, err,
  no_video_channel, length, if◌then◌else◌,
}
use hass_comelit_intercom_lo.Base.Bytes.{Bytes, Str}
use hass_comelit_intercom_lo.Client.State.{Channel}
use hass_comelit_intercom_lo.Client.Calls.{get_channel}
use hass_comelit_intercom_lo.Protocol.Video.{encode_answer_peer, encode_door_open_during_video}
use hass_comelit_intercom_lo.Receiver.Queues.{Receiver}
use hass_comelit_intercom_lo.Receiver.Packets.{receive_tcp_rtp}
use hass_comelit_intercom_lo.VideoCall.Session.{
  VideoSession, Call, Act, ◌>>=◌, ◌>>◌, return, raise, lift, set_session, now_state, send_message,
  read, ctr_incr_byte4,
}
use hass_comelit_intercom_lo.VideoCall.Exchange.{response_of, send_call_ack}
use hass_comelit_intercom_lo.VideoCall.Cleanup.{ctpp_name}
use hass_comelit_intercom_lo.VideoCall.Start.{reestablish}

-- The arguments of the monitor's task, and the clock it reads on a renewal.
pub record Monitor : Type 0 where
  pub channel : Channel
  pub our_addr : Str
  pub entrance_addr : Str
  pub rtpc1_server_id : ℕ
  pub media_req_id : ℕ

-- What a message of the device asks for.
pub data Request : Type 0 where
  renew acknowledge ignore : Request

unfoldable pub request_of : Option (ℕ × ℕ) → Request
request_of none = ignore
request_of (some (msg_type, action)) =
    if msg_type == 0x1840 && action == 0x0003
    then renew
    else if msg_type == 0x1840 || msg_type == 0x1860
    then acknowledge
    else ignore

-- How a round leaves the loop: it goes on with its counter, it has ended after a failed renewal, with
-- `on_call_end` called, or with an exception that is only logged.
pub data MonitorEnd : Type 0 where
  goes_on : ℕ → MonitorEnd
  call_ended monitor_error : MonitorEnd

unfoldable pub set_counter : ℕ → VideoSession → VideoSession
set_counter counter v = record v { call_counter = counter }

-- A packet of at least twelve bytes goes to the receiver.
unfoldable pub feed : Option Bytes → Receiver → Result Receiver
feed none r = ok r
feed (some body) r = if leb 12 (length body) then receive_tcp_rtp body r else ok r

module _ {Msg : Type 0} where
  -- The acknowledgement under the task's own counter moved on, which the session takes over.
  unfoldable pub acknowledge_step : Monitor → ℕ → Act Msg ℕ
  acknowledge_step m counter = do
    set_session (set_counter (counter + ctr_incr_byte4))
    send_call_ack m.channel m.our_addr m.entrance_addr (counter + ctr_incr_byte4)
    return (counter + ctr_incr_byte4)

  unfoldable pub renew_step : Monitor → ℕ → ℕ → ℕ → ℕ → Act Msg ℕ
  renew_step m now secs frac counter = do
    renewed ←
        reestablish m.channel m.our_addr m.entrance_addr m.rtpc1_server_id m.media_req_id now secs
          frac counter
    set_session (set_counter renewed)
    return renewed

  unfoldable pub renewal_end : Call Msg × Result ℕ → Call Msg × MonitorEnd
  renewal_end (s, ok counter) = (s, goes_on counter)
  renewal_end (s, err e) = (record s { session = record s.session { active = false } }, call_ended)

  unfoldable pub acknowledge_end : Call Msg × Result ℕ → Call Msg × MonitorEnd
  acknowledge_end (s, ok counter) = (s, goes_on counter)
  acknowledge_end (s, err e) = (s, monitor_error)

  unfoldable pub on_request : Monitor → ℕ → ℕ → ℕ → Request → ℕ → Call Msg → Call Msg × MonitorEnd
  unfolding acknowledge_step renew_step renewal_end acknowledge_end
  on_request m now secs frac renew counter s = renewal_end (renew_step m now secs frac counter s)
  on_request m now secs frac acknowledge counter s = acknowledge_end (acknowledge_step m counter s)
  on_request m now secs frac ignore counter s = (s, goes_on counter)

  -- One round of the monitor's loop. While it reads, the other tasks change the client, and the
  -- session as `meanwhile` does: a door that is opened moves the counter, a cleanup ends the session.
  unfoldable pub monitor_round :
      Monitor → ℕ → ℕ → ℕ → (VideoSession → VideoSession) → ℕ → Call Msg → Call Msg × MonitorEnd
  unfolding on_request
  monitor_round m now secs frac meanwhile counter s =
      let (s1, resp) = read m.channel.name s in
      let s' : Call Msg = record s1 { session = meanwhile s1.session } in
      elim resp [
        | err e ↦ (s', monitor_error)
        | ok body ↦ on_request m now secs frac (request_of (response_of body)) counter s'
      ]

  -- A round of `_tcp_video_loop`.
  unfoldable pub tcp_video_round : Channel → Receiver → Act Msg Receiver
  unfolding feed
  tcp_video_round rtpc2 receiver = do body ← read rtpc2.name; lift (feed body receiver)

  -- The counter of the session moved on, and the message that it is for.
  unfoldable pub send_next : Channel → (ℕ → Result Bytes) → Act Msg (Unit {0})
  unfolding set_counter
  send_next ch encode = do
    s ← now_state
    let counter : ℕ = s.session.call_counter + ctr_incr_byte4
    set_session (set_counter counter)
    send_message ch (encode counter)

  unfoldable pub send_answer_sequence : Monitor → Act Msg (Unit {0})
  unfolding send_next
  send_answer_sequence m =
      send_next m.channel λ counter. encode_answer_peer m.our_addr m.entrance_addr counter false

  unfoldable pub door_on : Option Channel → Bool → (ℕ → Result Bytes) → Act Msg (Unit {0})
  unfolding send_next
  door_on none active encode = raise no_video_channel
  door_on (some ch) active encode =
      if not active then raise no_video_channel else send_next ch encode

  -- The relay of a door, over the call's channel; a `RuntimeError` where there is none, or no call.
  unfoldable pub open_door_on_ctpp : Str → Str → ℕ → Option Str → Act Msg (Unit {0})
  unfolding door_on
  open_door_on_ctpp our_addr entrance_addr relay_index apt_addr = do
    s ← now_state
    door_on (get_channel ctpp_name s.client) s.session.active
        λ counter. encode_door_open_during_video our_addr entrance_addr counter relay_index apt_addr
