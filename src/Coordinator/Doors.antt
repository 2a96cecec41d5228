-- ===== src/Coordinator/Doors.antt =====
-- coordinator.py: `async_open_door`; button.py: the presses of the buttons, which go to the
-- coordinator.
use hass_comelit_intercom_lo.Base.{
  Bool, true, false, Option, none, some, [], Result, ok, err, not_connected, if◌then◌else◌,
}
use hass_comelit_intercom_lo.Models.{DeviceConfig, our_address, entrance_address}
use hass_comelit_intercom_lo.Client.State.{Channel, Client}
use hass_comelit_intercom_lo.Client.Calls.{get_channel}
use hass_comelit_intercom_lo.Doors.Opening.{Door}
use hass_comelit_intercom_lo.VideoCall.Session.{VideoSession}
use hass_comelit_intercom_lo.VideoCall.Cleanup.{ctpp_name}
use hass_comelit_intercom_lo.VideoCall.Monitor.{open_door_on_ctpp}
use hass_comelit_intercom_lo.Coordinator.State.{Coordinator, request_video_stop}
use hass_comelit_intercom_lo.Coordinator.Stopping.{async_stop_video}
use hass_comelit_intercom_lo.Coordinator.Streaming.{start_video_begin}

-- How a door is opened: over the call of a session, on the CTPP channel that is open, or on a
-- connection of its own.
pub data DoorPath : Type 0 where
  over_call : VideoSession → DoorPath
  on_channel : Channel → DoorPath
  on_own_connection : DoorPath

-- Is the session there, and active?
unfoldable pub video_is_active : Option VideoSession → Bool
video_is_active none = false
video_is_active (some session) = session.active

unfoldable pub path_on : Option Channel → DoorPath
path_on none = on_own_connection
path_on (some ch) = on_channel ch

module _ {Msg : Type 0} where
  unfoldable pub path_with : Option VideoSession → Client Msg → DoorPath
  unfolding path_on
  path_with none client = path_on (get_channel ctpp_name client)
  path_with (some session) client =
      if session.active then over_call session else path_on (get_channel ctpp_name client)

  unfoldable pub door_path_with :
      Option DeviceConfig → Option (Client Msg) → Option VideoSession → Result DoorPath
  unfolding path_with
  door_path_with (some config) (some client) session = ok (path_with session client)
  door_path_with _ _ session = err not_connected

  -- The path that `async_open_door` takes.
  unfoldable pub door_path : Coordinator Msg → Result DoorPath
  unfolding door_path_with
  door_path c = door_path_with c.config c.client c.video_session

  -- The door over the call of a session.
  unfoldable pub open_over_call :
      Client Msg
      → DeviceConfig
      → Door
      → VideoSession
      → Coordinator Msg
      → Coordinator Msg × Result (Unit {0})
  open_over_call client config door session c =
      let (s, r) =
        open_door_on_ctpp (our_address config) (entrance_address config) door.output_index
          (some config.apt_address) (record { client = client; waits = []; session = session }) in
      (record c { client = some s.client; video_session = some s.session }, r)

  -- The press of the stop button.
  unfoldable pub press_stop : Coordinator Msg → Coordinator Msg
  press_stop c = async_stop_video (request_video_stop c)

  -- The press of the start button, up to the same wait.
  unfoldable pub press_start : Coordinator Msg → Coordinator Msg
  press_start c = elim c.config [ none ↦ c | some config ↦ (start_video_begin true c).0 ]

  -- After a door was opened: the stop is the user's, and comes ten seconds later.
  unfoldable pub door_opened : Coordinator Msg → Coordinator Msg × Bool
  door_opened c =
      if video_is_active c.video_session then (request_video_stop c, true) else (c, false)

  -- `_stop_video_after_delay`, behind its delay.
  unfoldable pub stop_after_delay : Coordinator Msg → Coordinator Msg
  stop_after_delay c = if video_is_active c.video_session then async_stop_video c else c
