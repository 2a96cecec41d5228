-- ===== src/Coordinator/Steps.antt =====
-- coordinator.py: what can happen to a coordinator, one step after another. Between two steps the
-- other tasks change the client and the session, which are steps too.
use hass_comelit_intercom_lo.Base.{Option, none, some, List, [], ◌∷◌, Result, if◌then◌else◌}
use hass_comelit_intercom_lo.Client.State.{Client}
use hass_comelit_intercom_lo.VideoCall.Session.{VideoSession}
use hass_comelit_intercom_lo.Coordinator.State.{
  Coordinator, on_video_call_end, on_client_disconnect,
}
use hass_comelit_intercom_lo.Coordinator.Listener.{restart_notifications}
use hass_comelit_intercom_lo.Coordinator.Stopping.{async_stop_video}
use hass_comelit_intercom_lo.Coordinator.Connection.{Device, async_update_data, async_shutdown}
use hass_comelit_intercom_lo.Coordinator.Streaming.{
  start_video_end, start_video_reconnected, auto_restart_video,
}
use hass_comelit_intercom_lo.Coordinator.Doors.{
  press_start, press_stop, door_opened, stop_after_delay,
}

pub data Event (Msg : Type 0) : Type 0 where
  -- the buttons, the restart task, and what `session.start()` returns or raises
  start_pressed auto_restart : Event Msg
  -- the end of a reconnect that a start waits for
  reconnected : Device Msg → Event Msg
  session_started : Result VideoSession → Event Msg
  stop_pressed stop_requested door_pressed delay_over : Event Msg
  -- the device and the connection
  call_ended connection_lost : Event Msg
  refresh_due : Device Msg → Event Msg
  client_changes : (Client Msg → Client Msg) → Event Msg
  session_changes : (VideoSession → VideoSession) → Event Msg
  restart_notifications_pressed shut_down : Event Msg

abbrev pub on_some : {A : Type 0} → (A → A) → Option A → Option A
on_some change none = none
on_some change (some a) = some (change a)

module _ {Msg : Type 0} where
  -- Only a start that holds the lock waits for a session, or for a reconnect.
  unfoldable pub step : Event Msg → Coordinator Msg → Coordinator Msg
  step start_pressed c = press_start c
  step auto_restart c = auto_restart_video c
  step (reconnected device) c =
      if c.video_reconnecting then (start_video_reconnected device c).0 else c
  step (session_started r) c = if c.video_starting then (start_video_end r c).0 else c
  step stop_pressed c = press_stop c
  step stop_requested c = async_stop_video c
  step door_pressed c = (door_opened c).0
  step delay_over c = stop_after_delay c
  step call_ended c = on_video_call_end c
  step connection_lost c = on_client_disconnect c
  step (refresh_due device) c = (async_update_data device c).0
  step (client_changes change) c = record c { client = on_some change c.client }
  step (session_changes change) c = record c { video_session = on_some change c.video_session }
  step restart_notifications_pressed c = restart_notifications c
  step shut_down c = async_shutdown c

  unfoldable pub run : List (Event Msg) → Coordinator Msg → Coordinator Msg
  unfolding step
  run [] c = c
  run (event ∷ events) c = run events (step event c)
