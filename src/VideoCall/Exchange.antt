-- ===== src/VideoCall/Exchange.antt =====
-- video_call.py: `_run_codec_exchange` and `_ack_device_rtpc_link`, on the responses that the waits
-- bring. A loop of n rounds is recursion on n.
use hass_comelit_intercom_lo.Base.{
  ℕ, zero, suc, ◌+◌, ◌*◌, ◌==◌, Bool, true, false, ◌&&◌, ◌||◌, Option, none, some, ◌∷◌,
  if◌then◌else◌,
}
use hass_comelit_intercom_lo.Base.Bytes.{Bytes, Str}
use hass_comelit_intercom_lo.Client.State.{Channel}
use hass_comelit_intercom_lo.Protocol.Video.{encode_call_response_ack}
use hass_comelit_intercom_lo.VideoCall.Session.{
  Act, ◌>>=◌, ◌>>◌, return, send_message, read, ctr_incr_byte4, ctr_incr_byte5, ctr_incr_both,
}

-- Bytes 6 and 7, or 0 where they are not there.
unfoldable pub action_of : Bytes → ℕ
action_of (a ∷ b ∷ c ∷ d ∷ e ∷ f ∷ high ∷ low ∷ rest) = high * 256 + low
action_of body = 0

-- The type and the action of a response; `none` on a timeout, or for fewer than two bytes.
unfoldable pub response_of : Option Bytes → Option (ℕ × ℕ)
unfolding action_of
response_of (some (low ∷ high ∷ rest)) = some (low + 256 * high, action_of (low ∷ high ∷ rest))
response_of resp = none

-- What one round does: leave the loop, go on to the next response, or acknowledge this one with the
-- counter moved on, and then leave the loop or go on.
pub data Round : Type 0 where
  give_up skip : Round
  ack : ℕ → Bool → Round

unfoldable pub codec_round : Option (ℕ × ℕ) → Round
codec_round none = give_up
codec_round (some (msg_type, action)) =
    if msg_type == 0x1840
    then (if action == 0x0008
        then ack ctr_incr_both false
        else if action == 0x0002
        then ack ctr_incr_byte5 true
        else ack ctr_incr_byte4 false)
    else skip

unfoldable pub link_round : Option (ℕ × ℕ) → Round
link_round none = give_up
link_round (some (msg_type, action)) =
    if (msg_type == 0x1840 || msg_type == 0x1860) && action == 0x000A
    then ack ctr_incr_byte5 true
    else skip

module _ {Msg : Type 0} (ch : Channel) (our_addr entrance_addr : Str) where
  unfoldable pub send_call_ack : ℕ → Act Msg (Unit {0})
  send_call_ack counter =
      send_message ch (encode_call_response_ack our_addr entrance_addr counter 0x1800)

  -- A round of either loop, with the rounds that are left.
  unfoldable pub do_round : Round → (ℕ → Act Msg ℕ) → ℕ → Act Msg ℕ
  unfolding send_call_ack
  do_round give_up next counter = return counter
  do_round skip next counter = next counter
  do_round (ack incr true) next counter = send_call_ack (counter + incr) >> return (counter + incr)
  do_round (ack incr false) next counter = send_call_ack (counter + incr) >> next (counter + incr)

  unfoldable pub exchange : (Option (ℕ × ℕ) → Round) → ℕ → ℕ → Act Msg ℕ
  unfolding do_round
  exchange round zero counter = return counter
  exchange round (suc n) counter = do
    resp ← read ch.name
    do_round (round (response_of resp)) (exchange round n) counter

  unfoldable pub run_codec_exchange : ℕ → Act Msg ℕ
  unfolding exchange
  run_codec_exchange counter = exchange codec_round 10 counter

  unfoldable pub ack_device_rtpc_link : ℕ → Act Msg ℕ
  unfolding exchange
  ack_device_rtpc_link counter = exchange link_round 5 counter
