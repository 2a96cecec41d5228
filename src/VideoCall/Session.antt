-- ===== src/VideoCall/Session.antt =====
-- video_call.py: the state of `VideoCallSession`, and the calls of the client that it makes. A call
-- may raise, and may have changed the state before; a wait first lets the other tasks run.
use hass_comelit_intercom_lo.Base.{
  ℕ, ◌≡◌, ap, Bool, true, false, Option, none, some, List, [], ◌∷◌, Result, ok, err, Error,
}
use hass_comelit_intercom_lo.Base.Bytes.{Bytes, Str}
use hass_comelit_intercom_lo.Base.Dict.{get, str_keys}
use hass_comelit_intercom_lo.Client.State.{Channel, Client}
use hass_comelit_intercom_lo.Client.Calls.{open_channel_begin, open_channel_end, read_response}
use hass_comelit_intercom_lo.Client.Sends.{send_payload}
use hass_comelit_intercom_lo.Receiver.Queues.{Receiver}
use hass_comelit_intercom_lo.Rtsp.Server.{Server}

abbrev pub ctr_incr_byte4 : ℕ
ctr_incr_byte4 = 0x00010000

abbrev pub ctr_incr_byte5 : ℕ
ctr_incr_byte5 = 0x01000000

abbrev pub ctr_incr_both : ℕ
ctr_incr_both = 0x01010000

-- Tasks are there or not. A task that `_cleanup` cancels ends.
pub record VideoSession : Type 0 where
  pub auto_timeout : Bool
  pub external_rtsp : Bool
  pub rtp_receiver : Option Receiver
  pub rtsp_server : Option Server
  pub timeout_task : Bool
  pub tcp_task : Bool
  pub ctpp_task : Bool
  pub active : Bool
  pub owns_ctpp : Bool
  -- the counter that `_ctpp_lock` guards
  pub call_counter : ℕ

unfoldable pub init : Bool → Option Server → VideoSession
init auto_timeout rtsp_server = record {
  auto_timeout = auto_timeout;
  external_rtsp = (elim rtsp_server [ none ↦ false | some server ↦ true ]);
  rtp_receiver = none;
  rtsp_server = rtsp_server;
  timeout_task = false;
  tcp_task = false;
  ctpp_task = false;
  active = false;
  owns_ctpp = false;
  call_counter = 0;
}

-- The session and the shared client. `waits` is what the other tasks do to the client during each
-- wait to come, such as the packets that the receive loop dispatches; behind its end, nothing.
pub record Call (Msg : Type 0) : Type 0 where
  pub client : Client Msg
  pub waits : List (Client Msg → Client Msg)
  pub session : VideoSession

-- A method: what it returns or raises, and the state it leaves.
abbrev pub Act {ℓ} : Type 0 → Type ℓ → Type ℓ
Act Msg A = Call Msg → Call Msg × Result A

abbrev pub after {ℓ κ} :
    {Msg : Type 0} {A : Type ℓ} {B : Type κ}
    → Call Msg × Result A
    → (A → Act Msg B)
    → Call Msg × Result B
after (s, err e) rest = (s, err e)
after (s, ok a) rest = rest a s

infixl 5 ◌>>=◌
abbrev pub ◌>>=◌ {ℓ κ} :
    {Msg : Type 0} {A : Type ℓ} {B : Type κ} → Act Msg A → (A → Act Msg B) → Act Msg B
(first >>= rest) s = after (first s) rest

infixl 5 ◌>>◌
abbrev pub ◌>>◌ {ℓ κ} : {Msg : Type 0} {A : Type ℓ} {B : Type κ} → Act Msg A → Act Msg B → Act Msg B
first >> rest = first >>= λ a. rest

abbrev pub return {ℓ} : {Msg : Type 0} {A : Type ℓ} → A → Act Msg A
return a s = (s, ok a)

abbrev pub raise {ℓ} : {Msg : Type 0} {A : Type ℓ} → Error → Act Msg A
raise e s = (s, err e)

abbrev pub lift {ℓ} : {Msg : Type 0} {A : Type ℓ} → Result A → Act Msg A
lift r s = (s, r)

module _ {Msg : Type 0} where
  abbrev pub now_state : Act Msg (Call Msg)
  now_state s = (s, ok s)

  abbrev pub with_client : Call Msg → Client Msg → Call Msg
  with_client s c = record s { client = c }

  -- A call that changes the session's fields only.
  abbrev pub set_session : (VideoSession → VideoSession) → Act Msg (Unit {0})
  set_session change s = (record s { session = change s.session }, ok tt)

  -- A call of a client's method that does not wait.
  unfoldable pub call_client : (Client Msg → Client Msg × Result (Unit {0})) → Act Msg (Unit {0})
  call_client method s = let (c, r) = method s.client in (with_client s c, r)

  -- client.send_binary(channel, encode(...))
  unfoldable pub send_message : Channel → Result Bytes → Act Msg (Unit {0})
  send_message ch payload s = let (c, r) = send_payload ch payload s.client in (with_client s c, r)

  unfoldable pub wait_for : List (Client Msg → Client Msg) → Call Msg → Call Msg
  wait_for [] s = s
  wait_for (others ∷ rest) s = record s { client = others s.client; waits = rest }

  unfoldable pub wait : Act Msg (Unit {0})
  unfolding wait_for
  wait s = (wait_for s.waits s, ok tt)

  -- client.read_response(channel, timeout)
  unfoldable pub read : Str → Act Msg (Option Bytes)
  unfolding wait
  read name s =
      let (s', done) = wait s in
      let (resp, c) = read_response name s'.client in (with_client s' c, ok resp)

  -- client.open_channel(name, ...)
  unfoldable pub open_channel : Str → ℕ → Option Str → ℕ → Option Str → Act Msg Channel
  unfolding wait call_client
  open_channel name channel_type extra_data trailing_byte wire_name =
      call_client (open_channel_begin name channel_type extra_data trailing_byte wire_name)
      >>= λ sent. wait >>= λ waited. λ s. (s, open_channel_end name s.client)

  -- The wait for the `open_event` of a placeholder: was it set?
  unfoldable pub wait_for_open : Str → Act Msg Bool
  unfolding wait
  wait_for_open name = wait >>= λ waited.
      λ s. (s, ok (elim (get name s.client.channels) [ none ↦ false | some ch ↦ ch.open_event ]))

-- The rest of a method runs where its first part has returned.
pub bind_of_ok {ℓ κ} :
    {Msg : Type 0} {A : Type ℓ} {B : Type κ} (first : Act Msg A) (rest : A → Act Msg B)
    (s s' : Call Msg) (a : A)
    → first s ≡ (s', ok a)
    → (first >>= rest) s ≡ rest a s'
bind_of_ok first rest s s' a e = ap (λ r. after r rest) e

pub bind_of_err {ℓ κ} :
    {Msg : Type 0} {A : Type ℓ} {B : Type κ} (first : Act Msg A) (rest : A → Act Msg B)
    (s s' : Call Msg) (e : Error)
    → first s ≡ (s', err e)
    → (first >>= rest) s ≡ (s', err e)
bind_of_err first rest s s' e p = ap (λ r. after r rest) p
