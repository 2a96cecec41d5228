-- ===== src/Examples/Home.antt =====
-- coordinator.py at concrete inputs.
use hass_comelit_intercom_lo.Base.{
  ◌≡◌, refl, true, false, none, some, List, [], ◌∷◌, inl, ok, err, connection_error,
  video_call_error,
}
use hass_comelit_intercom_lo.Base.Bytes.{Bytes}
use hass_comelit_intercom_lo.Base.Dict.{get, str_keys}
use hass_comelit_intercom_lo.Models.{DeviceConfig}
use hass_comelit_intercom_lo.Client.State.{Channel, Client}
use hass_comelit_intercom_lo.Client.Calls.{get_channel}
use hass_comelit_intercom_lo.Vip.Listener.{Vip}
use hass_comelit_intercom_lo.VideoCall.Session.{VideoSession}
use hass_comelit_intercom_lo.VideoCall.Session.{init as new_session}
use hass_comelit_intercom_lo.VideoCall.Cleanup.{ctpp_name}
use hass_comelit_intercom_lo.Coordinator.State.{Coordinator}
use hass_comelit_intercom_lo.Coordinator.Listener.{restart_notifications}
use hass_comelit_intercom_lo.Coordinator.Connection.{Device, reconnect}
use hass_comelit_intercom_lo.Coordinator.Streaming.{
  starts, start_video_begin, start_video_end, begin_with, begin_locked, clear_the_way,
}
use hass_comelit_intercom_lo.Coordinator.Doors.{press_stop}
use hass_comelit_intercom_lo.Coordinator.Steps.{
  Event, start_pressed, auto_restart, reconnected, session_started, stop_pressed, call_ended,
  refresh_due, step, run,
}
use hass_comelit_intercom_lo.Coordinator.Abstract.{Moves, video}
use hass_comelit_intercom_lo.Coordinator.Moves.{step-Moves}
use hass_comelit_intercom_lo.Coordinator.Safety.{
  IsStopped, IsConsistent, run-IsStopped, run-IsConsistent,
}
use hass_comelit_intercom_lo.Coordinator.Starts.{start_pressed-publishes}
use hass_comelit_intercom_lo.Coordinator.Races.{
  start_video_end-deaf, stop_pressed-lost, stop_pressed-overwritten, restart_notifications-beside,
}

abbrev control : Channel
control = record {
  name = ctpp_name;
  channel_type = 16;
  request_id = 1;
  server_channel_id = 0x2A17;
  sequence = 3;
  is_open = true;
  open_event = true;
  open_response_body = [];
  response_queue = [];
}

abbrev bridge : Client Bytes
bridge = record {
  connected = true;
  has_writer = true;
  request_id = 1;
  sequence = 0;
  channels = (ctpp_name, control) ∷ [];
  callbacks = [];
  has_push_callback = false;
  sent = [];
  results = [];
  pushed = [];
}

abbrev home : DeviceConfig
home = record {
  apt_address = b'S' ∷ b'B' ∷ [];
  apt_subaddress = 6;
  caller_address = b'S' ∷ b'B' ∷ b'1' ∷ [];
  doors = [];
  cameras = [];
}

-- A device that takes no connection.
abbrev dead : Device Bytes
dead = record {
  connects = [];
  fresh = bridge;
  login = err connection_error;
  registered = ok tt;
  waits = [];
  now = 1000;
}

abbrev coordinator : Coordinator Bytes
coordinator = record {
  notifications_enabled = true;
  client = some bridge;
  config = some home;
  video_session = none;
  video_stopped_by_user = false;
  video_starting = false;
  video_reconnecting = false;
  video_ready_event = false;
  rtsp_server = none;
  rtsp_url = none;
  vip_listener = none;
  ctpp_init_ts = 0;
  keepalive_task = true;
  push_callbacks = [];
  consecutive_reconnect_failures = 0;
  on_stop_video = [];
  on_video_state_change = (7, tt) ∷ [];
  on_vip_state_change = [];
  called = [];
  scheduled = [];
}

abbrev call : VideoSession
call = record (new_session true none) { active = true }

abbrev stopped : Coordinator Bytes
stopped = record coordinator { video_stopped_by_user = true }

abbrev starting : Coordinator Bytes
starting = record coordinator { video_starting = true }

step-Moves_example :
    Moves false (video starting) (video (step (session_started (ok call)) starting))
step-Moves_example = step-Moves (session_started (ok call)) starting

-- A restart that was scheduled before, the end of a call, and a reconnect.
abbrev autos : List (Event Bytes)
autos =
    auto_restart ∷ reconnected dead ∷ call_ended ∷ refresh_due dead ∷ session_started (ok call) ∷ []

run-IsStopped_example : IsStopped (video (run autos stopped))
run-IsStopped_example =
    run-IsStopped autos stopped (refl, (refl, (refl, (refl, (refl, tt)))))
      (record { by_user = refl; idle = refl; no_reconnect = refl; no_session = refl })

run-IsConsistent_example : IsConsistent (video (run autos starting))
run-IsConsistent_example = run-IsConsistent autos starting refl

start_pressed-publishes_example :
    let c' = run (start_pressed ∷ session_started (ok call) ∷ []) stopped in
    (c'.video_session ≡ some call)
    × (c'.video_ready_event ≡ true)
    × (c'.video_stopped_by_user ≡ false)
    × (c'.video_starting ≡ false)
    × (c'.vip_listener ≡ none)
start_pressed-publishes_example =
    start_pressed-publishes home bridge call stopped refl refl refl refl

begun : start_video_begin true stopped ≡ (clear_the_way stopped, ok starts)
unfolding start_video_begin begin_with begin_locked
begun = refl

start_video_end-deaf_example :
    let failed = (start_video_end (err video_call_error) (clear_the_way stopped)).0 in
    (failed.video_session ≡ none)
    × (failed.vip_listener ≡ none)
    × (failed.video_starting ≡ false)
    × ((press_stop failed).vip_listener ≡ none)
start_video_end-deaf_example =
    start_video_end-deaf true dead video_call_error stopped (clear_the_way stopped) (inl begun)

stop_pressed-lost_example :
    let c' = run (stop_pressed ∷ session_started (ok call) ∷ []) starting in
    (c'.video_session ≡ some call)
    × (c'.video_ready_event ≡ true)
    × (c'.video_stopped_by_user ≡ true)
stop_pressed-lost_example = stop_pressed-lost call starting refl refl

-- A device that takes the connection and answers the log-in.
abbrev alive : Device Bytes
alive = record dead { connects = true ∷ []; login = ok home }

abbrev renewing : Coordinator Bytes
renewing = record coordinator { video_reconnecting = true }

renewed : (reconnect alive (press_stop renewing)).1 ≡ ok tt
unfolding reconnect press_stop
renewed = refl

stop_pressed-overwritten_example :
    let c' = run (stop_pressed ∷ reconnected alive ∷ session_started (ok call) ∷ []) renewing in
    (c'.video_session ≡ some call)
    × (c'.video_ready_event ≡ true)
    × (c'.video_stopped_by_user ≡ false)
stop_pressed-overwritten_example = stop_pressed-overwritten alive call renewing refl refl renewed

abbrev running : Coordinator Bytes
running = record coordinator { video_session = some call; video_ready_event = true }

control_found : get_channel ctpp_name bridge ≡ some control
unfolding get_channel get
control_found = refl

restart_notifications-beside_example :
    let c' = restart_notifications running in
    ((vip : Vip) × (c'.vip_listener ≡ some vip) × (vip.channel ≡ control))
    × (c'.video_session ≡ some call)
restart_notifications-beside_example =
    restart_notifications-beside home bridge control call running refl refl control_found refl refl

abbrev lost : Coordinator Bytes
lost = record coordinator { client = none }
