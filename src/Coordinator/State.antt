-- ===== src/Coordinator/State.antt =====
-- coordinator.py: the state of `ComelitLocalCoordinator`. Callbacks are numbers, and what was called
-- and scheduled is recorded.
use hass_comelit_intercom_lo.Base.{
  ℕ, Bool, true, false, Option, none, some, List, [], ◌∷◌, ◌++◌, map, ◌||◌, if◌then◌else◌,
}
use hass_comelit_intercom_lo.Base.Bytes.{Str}
use hass_comelit_intercom_lo.Base.Dict.{Dict}
use hass_comelit_intercom_lo.Models.{DeviceConfig}
use hass_comelit_intercom_lo.Client.State.{Client}
use hass_comelit_intercom_lo.Rtsp.Server.{Server}
use hass_comelit_intercom_lo.Vip.Listener.{Vip, PushEvent}
use hass_comelit_intercom_lo.VideoCall.Session.{VideoSession}

-- A callback that was called.
pub data Notice : Type 0 where
  stop_video video_state vip_state : ℕ → Notice
  push_event : ℕ → PushEvent → Notice

-- `hass.async_create_task`
pub data Task : Type 0 where
  restart_video refresh : Task

pub record Coordinator (Msg : Type 0) : Type 0 where
  -- an option of the configuration entry
  pub notifications_enabled : Bool
  pub client : Option (Client Msg)
  pub config : Option DeviceConfig
  pub video_session : Option VideoSession
  pub video_stopped_by_user : Bool
  -- `_video_start_lock` is held by a start that waits for its session, or for its reconnect
  pub video_starting : Bool
  pub video_reconnecting : Bool
  pub video_ready_event : Bool
  pub rtsp_server : Option Server
  pub rtsp_url : Option Str
  pub vip_listener : Option Vip
  pub ctpp_init_ts : ℕ
  pub keepalive_task : Bool
  pub push_callbacks : Dict ℕ (Unit {0})
  pub consecutive_reconnect_failures : ℕ
  pub on_stop_video : Dict ℕ (Unit {0})
  pub on_video_state_change : Dict ℕ (Unit {0})
  pub on_vip_state_change : Dict ℕ (Unit {0})
  pub called : List Notice
  pub scheduled : List Task

-- `__init__`
unfoldable pub init : {Msg : Type 0} → Bool → Coordinator Msg
init notifications_enabled = record {
  notifications_enabled = notifications_enabled;
  client = none;
  config = none;
  video_session = none;
  video_stopped_by_user = false;
  video_starting = false;
  video_reconnecting = false;
  video_ready_event = false;
  rtsp_server = none;
  rtsp_url = none;
  vip_listener = none;
  ctpp_init_ts = 0;
  keepalive_task = false;
  push_callbacks = [];
  consecutive_reconnect_failures = 0;
  on_stop_video = [];
  on_video_state_change = [];
  on_vip_state_change = [];
  called = [];
  scheduled = [];
}

-- The callbacks in the order in which they were added.
unfoldable pub keys : Dict ℕ (Unit {0}) → List ℕ
keys [] = []
keys ((k, u) ∷ d) = k ∷ keys d

module _ {Msg : Type 0} where
  unfoldable pub call_each : (ℕ → Notice) → Dict ℕ (Unit {0}) → Coordinator Msg → Coordinator Msg
  unfolding keys
  call_each notice callbacks c = record c { called = c.called ++ map notice (keys callbacks) }

  unfoldable pub notify_video_state_change : Coordinator Msg → Coordinator Msg
  unfolding call_each
  notify_video_state_change c = call_each video_state c.on_video_state_change c

  unfoldable pub notify_vip_state_change : Coordinator Msg → Coordinator Msg
  unfolding call_each
  notify_vip_state_change c = call_each vip_state c.on_vip_state_change c

  -- `_video_start_lock.locked()`
  abbrev pub video_is_locked : Coordinator Msg → Bool
  video_is_locked c = c.video_starting || c.video_reconnecting

  unfoldable pub vip_listener_active : Coordinator Msg → Bool
  vip_listener_active c = elim c.vip_listener [ none ↦ false | some vip ↦ true ]

  unfoldable pub request_video_stop : Coordinator Msg → Coordinator Msg
  request_video_stop c = record c { video_stopped_by_user = true }

  unfoldable pub schedule : Task → Coordinator Msg → Coordinator Msg
  schedule task c = record c { scheduled = c.scheduled ++ task ∷ [] }

  unfoldable pub on_video_call_end : Coordinator Msg → Coordinator Msg
  unfolding schedule
  on_video_call_end c = if c.video_stopped_by_user then c else schedule restart_video c

  unfoldable pub on_client_disconnect : Coordinator Msg → Coordinator Msg
  unfolding schedule
  on_client_disconnect c = elim c.client [ none ↦ c | some client ↦ schedule refresh c ]

  unfoldable pub start_keepalive : Coordinator Msg → Coordinator Msg
  start_keepalive c = record c { keepalive_task = true }

  unfoldable pub cancel_keepalive : Coordinator Msg → Coordinator Msg
  cancel_keepalive c = record c { keepalive_task = false }
