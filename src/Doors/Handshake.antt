-- ===== src/Doors/Handshake.antt =====
-- ctpp.py: `ctpp_init_sequence` and `read_response_ctpp`. The sequence is two functions, before its
-- wait for the device's responses and after it.
use hass_comelit_intercom_lo.Base.{
  ℕ, ◌+◌, ◌%◌, Bool, false, not, ◌&&◌, Option, none, some, Result, ok, err, assertion_error,
  if◌then◌else◌,
}
use hass_comelit_intercom_lo.Base.Bytes.{Str}
use hass_comelit_intercom_lo.Protocol.Door.{encode_ctpp_init}
use hass_comelit_intercom_lo.Protocol.Video.{encode_call_response_ack}
use hass_comelit_intercom_lo.Client.State.{Channel, Client}
use hass_comelit_intercom_lo.Client.Calls.{read_response}
use hass_comelit_intercom_lo.Client.Sends.{and_then, send_payload}
use hass_comelit_intercom_lo.Vip.Listener.{vip_ack_ts_incr}

module _ {Msg : Type 0} where
  unfoldable pub ctpp_init_begin :
      Channel → Str → ℕ → Option ℕ → Client Msg → Client Msg × Result (Unit {0})
  ctpp_init_begin ch apt_addr apt_sub timestamp c =
      send_payload ch (encode_ctpp_init apt_addr apt_sub timestamp) c

  -- Up to two responses are taken from the channel's queue; what they are is only logged. The result
  -- is always `False`.
  unfoldable pub read_response_ctpp : Str → Client Msg → Bool × Client Msg
  read_response_ctpp name c =
      let first = read_response name c in
      let second = read_response name first.1 in (false, second.1)

  unfoldable pub send_ack_pair :
      Option ℕ → Channel → Str → Str → Client Msg → Client Msg × Result (Unit {0})
  send_ack_pair none ch our_addr apt_addr c = (c, err assertion_error)
  send_ack_pair (some timestamp) ch our_addr apt_addr c =
      let ack_ts : ℕ = (timestamp + vip_ack_ts_incr) % 4294967296 in
      and_then (send_payload ch (encode_call_response_ack our_addr apt_addr ack_ts 0x1800) c)
        (λ c'. send_payload ch (encode_call_response_ack our_addr apt_addr ack_ts 0x1820) c')

  unfoldable pub ctpp_init_end :
      Channel → Str → Str → Option ℕ → Bool → Client Msg → Client Msg × Result (Unit {0})
  unfolding read_response_ctpp send_ack_pair
  ctpp_init_end ch apt_addr our_addr timestamp send_ack c =
      let (fast_ack_sent, c') = read_response_ctpp ch.name c in
      if send_ack && not fast_ack_sent
      then send_ack_pair timestamp ch our_addr apt_addr c'
      else (c', ok tt)
