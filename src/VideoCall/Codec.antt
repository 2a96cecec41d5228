-- ===== src/VideoCall/Codec.antt =====
-- video_call.py: the codec exchange and the wait for the device's link, against a description of
-- which responses are acknowledged and how far the counter moves for each.
use hass_comelit_intercom_lo.Base.{
  ℕ, zero, suc, ◌+◌, ◌*◌, ◌≤◌, ◌<◌, ◌==◌, ◌≡◌, refl, Bool, false, ◌||◌, ◌&&◌, Option, none, some,
  List, [], ◌∷◌, ◌++◌, map, ok, arith, length, take, if◌then◌else◌,
}
use hass_comelit_intercom_lo.Base.Bytes.{Bytes, Str, IsAscii}
use hass_comelit_intercom_lo.Client.State.{Channel}
use hass_comelit_intercom_lo.Client.Sends.{packet_on}
use hass_comelit_intercom_lo.VideoCall.Session.{Call}
use hass_comelit_intercom_lo.VideoCall.Exchange.{
  response_of, codec_round, link_round, run_codec_exchange, ack_device_rtpc_link,
}
use hass_comelit_intercom_lo.VideoCall.Quiet.{IsQuiet, ack_bytes, ack_bytes-Encodes}
use hass_comelit_intercom_lo.VideoCall.Acks.{
  replies_of, replies, last_of, replies-Below, increment_of, exchange-IsQuiet,
}

-- The messages before the first response that is too short to have a type.
abbrev messages_behind : Option (ℕ × ℕ) → List (ℕ × ℕ) → List (ℕ × ℕ)
messages_behind none rest = []
messages_behind (some m) rest = m ∷ rest

abbrev pub messages : List Bytes → List (ℕ × ℕ)
messages [] = []
messages (b ∷ rest) = messages_behind (response_of (some b)) (messages rest)

-- The actions of the call's messages.
abbrev pub call_actions : List (ℕ × ℕ) → List ℕ
call_actions [] = []
call_actions ((msg_type, action) ∷ rest) =
    if msg_type == 0x1840 then action ∷ call_actions rest else call_actions rest

-- Up to the first acceptance of the call.
abbrev pub until_accepted : List ℕ → List ℕ
until_accepted [] = []
until_accepted (action ∷ rest) =
    if action == 0x0002 then action ∷ [] else action ∷ until_accepted rest

abbrev pub increment : ℕ → ℕ
increment action =
    if action == 0x0008 then 0x01010000 else if action == 0x0002 then 0x01000000 else 0x00010000

-- The counter moved on for each action in turn.
abbrev pub counters : ℕ → List ℕ → List ℕ
counters counter [] = []
counters counter (action ∷ rest) =
    (counter + increment action) ∷ counters (counter + increment action) rest

-- The counters of the codec exchange.
abbrev pub codec_counters : ℕ → List Bytes → ℕ → List ℕ
codec_counters n responses counter =
    counters counter (until_accepted (call_actions (messages (take n responses))))

-- Is the device's link to its RTPC channel among the messages?
abbrev pub has_link : List (ℕ × ℕ) → Bool
has_link [] = false
has_link ((msg_type, action) ∷ rest) =
    (msg_type == 0x1840 || msg_type == 0x1860) && action == 0x000A || has_link rest

abbrev pub link_counters : ℕ → List Bytes → ℕ → List ℕ
link_counters n responses counter =
    if has_link (messages (take n responses)) then (counter + 0x01000000) ∷ [] else []

link_step :
    (m : Option (ℕ × ℕ)) (rest : List (ℕ × ℕ)) (next : ℕ → List ℕ) (counter : ℕ)
    → next counter ≡ (if has_link rest then (counter + 0x01000000) ∷ [] else [])
    → replies_of (link_round m) next counter
      ≡ (if has_link (messages_behind m rest) then (counter + 0x01000000) ∷ [] else [])
unfolding link_round
link_step none rest next counter h = refl
link_step (some (msg_type, action)) rest next counter h = ground (arith, h)

link_replies :
    (n : ℕ) (responses : List Bytes) (counter : ℕ)
    → replies link_round n responses counter ≡ link_counters n responses counter
link_replies zero responses counter = refl
link_replies (suc n) [] counter = unfold link_round response_of in refl
link_replies (suc n) (b ∷ rest) counter =
    link_step (response_of (some b)) (messages (take n rest)) (replies link_round n rest) counter
      (link_replies n rest counter)

codec_step :
    (m : Option (ℕ × ℕ)) (rest : List (ℕ × ℕ)) (next : ℕ → List ℕ) (counter : ℕ)
    → ((k : ℕ) → next k ≡ counters k (until_accepted (call_actions rest)))
    → replies_of (codec_round m) next counter
      ≡ counters counter (until_accepted (call_actions (messages_behind m rest)))
unfolding codec_round
codec_step none rest next counter h = refl
codec_step (some (msg_type, action)) rest next counter h =
    ground (arith, h counter, h (counter + 0x00010000), h (counter + 0x01010000))

codec_replies :
    (n : ℕ) (responses : List Bytes) (counter : ℕ)
    → replies codec_round n responses counter ≡ codec_counters n responses counter
codec_replies zero responses counter = refl
codec_replies (suc n) [] counter = unfold codec_round response_of in refl
codec_replies (suc n) (b ∷ rest) counter =
    codec_step (response_of (some b)) (messages (take n rest)) (replies codec_round n rest) counter
      (λ k. codec_replies n rest k)

pub codec_round_small : (m : Option (ℕ × ℕ)) → increment_of (codec_round m) ≤ 0x01010000
unfolding codec_round
codec_round_small none = omega arith
codec_round_small (some (msg_type, action)) = ground arith

pub link_round_small : (m : Option (ℕ × ℕ)) → increment_of (link_round m) ≤ 0x01010000
unfolding link_round
link_round_small none = omega arith
link_round_small (some (msg_type, action)) = ground arith

module _ {Msg : Type 0} (ch : Channel) (our_addr entrance_addr : Str) where
  -- While no other task runs, the codec exchange sends one acknowledgement for each message of the
  -- call among the first ten responses, up to the first acceptance and before the first response
  -- that is too short, each under the counter moved on by what its action asks for. It returns the
  -- last counter, and changes nothing of the session. The addresses are ASCII and fit a packet,
  -- and ten increments do not overflow.
  pub run_codec_exchange_acks :
      (responses : List Bytes) (counter : ℕ) (s : Call Msg)
      → IsQuiet ch responses s
      → IsAscii our_addr
      → IsAscii entrance_addr
      → length our_addr + length entrance_addr < 65000
      → counter + 10 * 0x01010000 < 4294967296
      → let acks = codec_counters 10 responses counter in
        let r = run_codec_exchange ch our_addr entrance_addr counter s in
        (r.1 ≡ ok (last_of counter acks))
        × (r.0.client.sent
            ≡ s.client.sent ++ map (λ k. packet_on ch (ack_bytes our_addr entrance_addr k)) acks)
        × (r.0.session ≡ s.session)
  unfolding run_codec_exchange
  run_codec_exchange_acks responses counter s h ascii ascii' short room =
      let acked =
        exchange-IsQuiet ch our_addr entrance_addr (ack_bytes our_addr entrance_addr) codec_round 10
          responses counter s h (ack_bytes-Encodes our_addr entrance_addr ascii ascii' short)
          (replies-Below codec_round codec_round_small 10 responses counter room) in
      rw (← codec_replies 10 responses counter) (acked.0, acked.1, acked.2)

  -- While no other task runs, the wait for the device's link acknowledges exactly the first link
  -- among the first five responses, where no response before it is too short, under the counter
  -- moved on by 0x01000000; without one it sends nothing and returns the counter as it was. The
  -- session is not changed. The addresses are ASCII and fit a packet, and the counter does not overflow.
  pub ack_device_rtpc_link_acks :
      (responses : List Bytes) (counter : ℕ) (s : Call Msg)
      → IsQuiet ch responses s
      → IsAscii our_addr
      → IsAscii entrance_addr
      → length our_addr + length entrance_addr < 65000
      → counter + 5 * 0x01010000 < 4294967296
      → let acks = link_counters 5 responses counter in
        let r = ack_device_rtpc_link ch our_addr entrance_addr counter s in
        (r.1 ≡ ok (last_of counter acks))
        × (r.0.client.sent
            ≡ s.client.sent ++ map (λ k. packet_on ch (ack_bytes our_addr entrance_addr k)) acks)
        × (r.0.session ≡ s.session)
  unfolding ack_device_rtpc_link
  ack_device_rtpc_link_acks responses counter s h ascii ascii' short room =
      let acked =
        exchange-IsQuiet ch our_addr entrance_addr (ack_bytes our_addr entrance_addr) link_round 5
          responses counter s h (ack_bytes-Encodes our_addr entrance_addr ascii ascii' short)
          (replies-Below link_round link_round_small 5 responses counter room) in
      rw (← link_replies 5 responses counter) (acked.0, acked.1, acked.2)
