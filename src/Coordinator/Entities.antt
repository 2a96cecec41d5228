-- ===== src/Coordinator/Entities.antt =====
-- camera.py and binary_sensor.py: what the entities ask of the coordinator. The numbers of an
-- entity's callbacks are arguments.
use hass_comelit_intercom_lo.Base.{ℕ, Bool, true, false, ◌&&◌, Option, none, some, if◌then◌else◌}
use hass_comelit_intercom_lo.Base.Bytes.{Str}
use hass_comelit_intercom_lo.VideoCall.Session.{VideoSession}
use hass_comelit_intercom_lo.Coordinator.State.{Coordinator, vip_listener_active}
use hass_comelit_intercom_lo.Coordinator.Callbacks.{
  add_push_callback, remove_push_callback, add_stop_video_callback, remove_stop_video_callback,
  add_video_state_change_callback, remove_video_state_change_callback,
}
use hass_comelit_intercom_lo.Coordinator.Stopping.{async_stop_video}

-- Has the session a receiver whose frames can be shown?
unfoldable pub shows_frames : Option VideoSession → Bool
shows_frames none = false
shows_frames (some session) =
    session.active && (elim session.rtp_receiver [ none ↦ false | some receiver ↦ true ])

module _ {Msg : Type 0} where
  unfoldable pub is_streaming : Coordinator Msg → Bool
  is_streaming c = elim c.video_session [ none ↦ false | some session ↦ true ]

  unfoldable pub source_with :
      Option VideoSession
      → (Coordinator Msg → Coordinator Msg)
      → Coordinator Msg
      → Option Str × Coordinator Msg
  source_with (some session) others c = (c.rtsp_url, c)
  source_with none others c =
      let c' = others c in (if c'.video_ready_event then c'.rtsp_url else none, c')

  -- `stream_source` of the intercom's camera: the address at once, or behind a wait in which the other
  -- tasks run, if video is ready then.
  unfoldable pub stream_source :
      (Coordinator Msg → Coordinator Msg) → Coordinator Msg → Option Str × Coordinator Msg
  unfolding source_with
  stream_source others c = source_with c.video_session others c

  -- `async_camera_image` gives a frame, and not the placeholder.
  unfoldable pub gives_frame : Coordinator Msg → Bool
  unfolding shows_frames
  gives_frame c = shows_frames c.video_session

  -- The camera's `async_added_to_hass` and `async_will_remove_from_hass`
  unfoldable pub camera_added : ℕ → ℕ → ℕ → Coordinator Msg → Coordinator Msg
  camera_added on_push on_stop on_state c =
      add_video_state_change_callback on_state
        (add_stop_video_callback on_stop (add_push_callback on_push c))

  unfoldable pub camera_removed : ℕ → ℕ → ℕ → Coordinator Msg → Coordinator Msg
  camera_removed on_push on_stop on_state c = async_stop_video (
      remove_video_state_change_callback on_state
        (remove_stop_video_callback on_stop (remove_push_callback on_push c)))

  -- The notification sensor's `is_on`
  unfoldable pub sensor_is_on : Coordinator Msg → Bool
  sensor_is_on c = vip_listener_active c
