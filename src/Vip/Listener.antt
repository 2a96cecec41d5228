-- ===== src/Vip/Listener.antt =====
-- vip_listener.py: `VipEventListener`. Times are in milliseconds; log texts are left out, with the
-- retransmit records that only they read kept.
use hass_comelit_intercom_lo.Base.{
  ℕ, ◌+◌, ◌%◌, ◌==◌, Bool, true, false, not, ◌&&◌, ◌||◌, Option, none, some, List, [], ◌∷◌, ◌++◌,
  Result, ok, err, ◌>>=◌, ltb, if◌then◌else◌,
}
use hass_comelit_intercom_lo.Base.Bytes.{Bytes, Str, decimal}
use hass_comelit_intercom_lo.Base.Dict.{Dict, get, put, same, nat_keys, str_keys}
use hass_comelit_intercom_lo.Protocol.Video.{encode_call_response_ack}
use hass_comelit_intercom_lo.Client.State.{Channel, Client}
use hass_comelit_intercom_lo.Client.Calls.{send_binary}
use hass_comelit_intercom_lo.Vip.Parse.{CtppMessage, parse_ctpp_message, derive_event_ack_ts}

abbrev pub prefix_video_event : ℕ
prefix_video_event = 0x1840

abbrev pub prefix_vip_event : ℕ
prefix_vip_event = 0x1860

abbrev pub prefix_call_init : ℕ
prefix_call_init = 0x18C0

abbrev pub action_in_alerting : ℕ
action_in_alerting = 0x0001

abbrev pub action_connected : ℕ
action_connected = 0x0002

abbrev pub action_door_opened : ℕ
action_door_opened = 0x0003

abbrev pub action_out_alerting : ℕ
action_out_alerting = 0x0004

abbrev pub action_closed : ℕ
action_closed = 0x0005

abbrev pub action_registration_renewal : ℕ
action_registration_renewal = 0x0010

-- The event types that the listener fires, which the source writes as texts.
pub data EventType : Type 0 where
  ring door_opened missed_call : EventType

abbrev pub same_type : EventType → EventType → Bool
same_type ring ring = true
same_type door_opened door_opened = true
same_type missed_call missed_call = true
same_type _ _ = false

pub record PushEvent : Type 0 where
  pub event_type : EventType
  pub apt_address : Str
  pub timestamp : ℕ
  pub addresses : List Str

pub record Vip : Type 0 where
  pub apt_address : Str
  pub apt_subaddress : ℕ
  pub channel : Channel
  pub ack_ts : ℕ
  pub last_fired : EventType → Option ℕ
  pub decode_misses : Dict (List ℕ) ℕ
  pub last_seen_ts : Dict (List ℕ) (List ℕ)
  -- the events that the callback was given
  pub fired : List PushEvent

-- `_VIP_ACK_TS_INCR`
abbrev pub vip_ack_ts_incr : ℕ
vip_ack_ts_incr = 0x01000000

unfoldable pub init : Str → ℕ → Channel → ℕ → Vip
init apt_address apt_subaddress channel init_ts = record {
  apt_address = apt_address;
  apt_subaddress = apt_subaddress;
  channel = channel;
  ack_ts = (init_ts + vip_ack_ts_incr) % 4294967296;
  last_fired = λ _. none;
  decode_misses = [];
  last_seen_ts = [];
  fired = [];
}

unfoldable pub caller_of : List Str → Str
caller_of [] = []
caller_of (a ∷ addresses) = a

abbrev pub or_zero : Option ℕ → ℕ
or_zero none = 0
or_zero (some n) = n

-- A second event of a type within ten seconds is dropped.
unfoldable pub fire_event : ℕ → EventType → List Str → Vip → Vip
unfolding caller_of
fire_event now type addresses v =
    if ltb now (or_zero (v.last_fired type) + 10000) then v else record v {
      last_fired = λ t. if same_type t type then some now else v.last_fired t;
      fired =
          v.fired
          ++ record {
            event_type = type;
            apt_address = caller_of addresses;
            timestamp = now;
            addresses = addresses;
          }
            ∷ [];
    }

unfoldable pub count_miss : ℕ → ℕ → Vip → Vip
count_miss prefix action v =
    let key : List ℕ = prefix ∷ action ∷ [] in
    record v { decode_misses = put key (or_zero (get key v.decode_misses) + 1) v.decode_misses }

-- The door was opened by an entrance, not by the apartment itself.
unfoldable pub handle_door_opened : ℕ → CtppMessage → Vip → Vip
unfolding caller_of
handle_door_opened now msg v =
    let caller = caller_of msg.addresses in
    if not (same caller []) && same caller v.apt_address
    then v
    else fire_event now door_opened msg.addresses v

unfoldable pub handle_fsm_event : ℕ → CtppMessage → Vip → Vip
unfolding handle_door_opened count_miss
handle_fsm_event now msg v =
    if msg.action == action_in_alerting
    then fire_event now ring msg.addresses v
    else if msg.action == action_connected
    then v
    else if msg.action == action_door_opened
    then handle_door_opened now msg v
    else if msg.action == action_out_alerting
    then v
    else if msg.action == action_closed
    then v
    else count_miss msg.prefix msg.action v

unfoldable pub handle_vip_event : ℕ → CtppMessage → Vip → Vip
unfolding handle_fsm_event count_miss
handle_vip_event now msg v =
    if msg.prefix == prefix_call_init
    then fire_event now ring msg.addresses v
    else if msg.prefix == prefix_vip_event && not (msg.action == 0)
    then handle_fsm_event now msg v
    else if msg.prefix == prefix_video_event && msg.action == 0
    then fire_event now missed_call msg.addresses v
    else count_miss msg.prefix msg.action v

unfoldable pub is_acked : CtppMessage → Bool
is_acked msg =
    (msg.prefix == prefix_video_event || msg.prefix == prefix_vip_event)
    && not (msg.prefix == prefix_vip_event && msg.action == action_door_opened)

unfoldable pub is_event : CtppMessage → Bool
is_event msg =
    msg.prefix == prefix_call_init
    || msg.prefix == prefix_vip_event
    || msg.prefix == prefix_video_event

unfoldable pub vip_address : Vip → Str
vip_address v = v.apt_address ++ decimal v.apt_subaddress

module _ {Msg : Type 0} where
  -- One acknowledgement: an exception of the encoder or of `send_binary` is the result.
  unfoldable pub send_ack : Vip → ℕ → ℕ → Client Msg → Client Msg × Result (Unit {0})
  send_ack v ts prefix c = elim (encode_call_response_ack (vip_address v) v.apt_address ts prefix) [
    | ok packet ↦ send_binary v.channel packet c
    | err e ↦ (c, err e)
  ]

  -- Failures are logged only.
  unfoldable pub send_event_ack : Vip → CtppMessage → Client Msg → Client Msg
  send_event_ack v msg c = (send_ack v (derive_event_ack_ts msg.timestamp) 0x1800 c).0

  unfoldable pub second_ack : Vip → Client Msg × Result (Unit {0}) → Client Msg
  second_ack v (c, ok u) = (send_ack v v.ack_ts 0x1820 c).0
  second_ack v (c, err e) = c

  unfoldable pub send_renewal_ack : Vip → Client Msg → Client Msg
  unfolding second_ack
  send_renewal_ack v c = second_ack v (send_ack v v.ack_ts 0x1800 c)

  -- A message that was parsed, at time `now`; the event is handled at `later`.
  unfoldable pub process_parsed : ℕ → ℕ → CtppMessage → Vip → Client Msg → Vip × Client Msg
  unfolding is_acked is_event
  process_parsed now later msg v c =
      let seen = record v {
        last_seen_ts = put (msg.prefix ∷ msg.action ∷ []) (msg.timestamp ∷ now ∷ []) v.last_seen_ts;
      } in
      let c1 = if msg.prefix == prefix_call_init then send_event_ack seen msg c else c in
      let c2 = if is_acked msg then send_event_ack seen msg c1 else c1 in
      if msg.prefix == prefix_vip_event && msg.action == action_registration_renewal
      then (seen, send_renewal_ack seen c)
      else ((if is_event msg then handle_vip_event later msg seen else seen), c2)

  unfoldable pub process_result : ℕ → ℕ → Option CtppMessage → Vip → Client Msg → Vip × Client Msg
  process_result now later none v c = (v, c)
  process_result now later (some msg) v c = process_parsed now later msg v c

  unfoldable pub process_message : ℕ → ℕ → Bytes → Vip → Client Msg → Result (Vip × Client Msg)
  unfolding process_result
  process_message now later bytes v c = do
    msg ← parse_ctpp_message bytes
    ok (process_result now later msg v c)
