-- ===== src/Coordinator/Moves.antt =====
-- coordinator.py: every step of the coordinator is a move of the abstract view.
use hass_comelit_intercom_lo.Base.{
  ◌≡◌, ◌∙◌, refl, sym, ap, subst, video_stopped, Bool, true, false, not, ◌&&◌, Option, none, some,
  Result, ok, err, if◌then◌else◌,
}
use hass_comelit_intercom_lo.Client.State.{Client}
use hass_comelit_intercom_lo.VideoCall.Session.{VideoSession}
use hass_comelit_intercom_lo.Models.{DeviceConfig}
use hass_comelit_intercom_lo.Coordinator.State.{
  Coordinator, refresh, request_video_stop, on_video_call_end, on_client_disconnect, schedule,
  call_each, notify_video_state_change, cancel_keepalive, video_is_locked,
}
use hass_comelit_intercom_lo.Coordinator.Listener.{
  ensure_vip_listener, pause_listener, restart_notifications,
}
use hass_comelit_intercom_lo.Coordinator.Stopping.{async_stop_video}
use hass_comelit_intercom_lo.Coordinator.Connection.{
  Device, reconnect, update_with, async_update_data, async_shutdown, is_connected,
}
use hass_comelit_intercom_lo.Coordinator.Streaming.{
  Begun, starts, await_connection, clear_the_way, start_video_reconnected, start_video_begin,
  start_video_end, auto_restart_video, begin_with, begin_locked, begin_on, begin_duplicate,
}
use hass_comelit_intercom_lo.Coordinator.Doors.{
  press_start, press_stop, door_opened, video_is_active, stop_after_delay,
}
use hass_comelit_intercom_lo.Coordinator.Steps.{
  Event, start_pressed, auto_restart, reconnected, session_started, stop_pressed, stop_requested,
  door_pressed, delay_over, call_ended, connection_lost, refresh_due, client_changes,
  session_changes, restart_notifications_pressed, shut_down, step,
}
use hass_comelit_intercom_lo.Coordinator.Abstract.{
  Video, vstop, vstop_twice, vstop_settled, video, Moves, stays, stops, asks, stops_and_asks,
  begins, reconnects, resumes, gives_up, fails, publishes, changes,
}
use hass_comelit_intercom_lo.Coordinator.Views.{
  video-pause_listener, video-ensure_with, video-refreshed, video-reconnect, video-async_stop_video,
  video-clear_the_way, video-if,
}

module _ {Msg : Type 0} where
  abbrev pub is_user_start : Event Msg → Bool
  is_user_start start_pressed = true
  is_user_start _ = false

  update_with-Moves :
      (b u : Bool) (o : Option DeviceConfig) (device : Device Msg) (c : Coordinator Msg)
      → Moves u (video c) (video (update_with b o device c).0)
  unfolding update_with
  update_with-Moves true u (some config) device c = stays
  update_with-Moves true u none device c =
      subst (Moves u (video c))
        (sym (video-refreshed (reconnect device c) ∙ video-reconnect device c)) stops
  update_with-Moves false u o device c =
      subst (Moves u (video c))
        (sym (video-refreshed (reconnect device c) ∙ video-reconnect device c)) stops

  begin_on-Moves :
      (u : Bool) (v : Video) (r : Coordinator Msg × Result (Unit {0}))
      → video r.0 ≡ vstop v
      → v.reconnecting ≡ true
      → Moves u v (video (begin_on r).0)
  unfolding begin_on
  begin_on-Moves u v (c, err e) p held =
      subst (Moves u v)
        (sym (
          ap (λ (w : Video). record w { reconnecting = false }) p ∙ vstop_settled v.session v refl))
        (gives_up held)
  begin_on-Moves u v (c, ok done) p held =
      subst (Moves u v)
        (sym (
          video-clear_the_way c
          ∙ ap
              (λ (w : Video).
                vstop (record w { stopped = false; starting = true; reconnecting = false }))
              p
          ∙ vstop_twice v.session v refl))
        (resumes held)

  begin_locked-Moves :
      (u : Bool) (o : Option (Client Msg)) (c : Coordinator Msg)
      → video_is_locked c ≡ false
      → Moves u (video c) (video (begin_locked o u c).0)
  unfolding begin_locked
  begin_locked-Moves u none c idle = stays
  begin_locked-Moves u (some client) c idle =
      go (c.video_stopped_by_user && not u) refl client.connected
    where
      go :
          (b : Bool)
          → c.video_stopped_by_user && not u ≡ b
          → (b' : Bool)
          → Moves u (video c) (
              video
                (if◌then◌else◌ {A = Coordinator Msg × Result Begun} b
                  (c, err video_stopped)
                  (if b'
                    then (clear_the_way c, ok starts)
                    else (record c { video_reconnecting = true }, ok await_connection))).0)
      go true e b' = stays
      go false e true = subst (Moves u (video c)) (sym (video-clear_the_way c)) (begins e idle)
      go false e false = reconnects e idle

  start_video_reconnected-Moves :
      (u b : Bool) (device : Device Msg) (c : Coordinator Msg)
      → c.video_reconnecting ≡ b
      → Moves u (video c) (video (if b then (start_video_reconnected device c).0 else c))
  unfolding start_video_reconnected
  start_video_reconnected-Moves u false device c e = stays
  start_video_reconnected-Moves u true device c e =
      begin_on-Moves u (video c) (reconnect device c) (video-reconnect device c) e

  begin_with-Moves :
      (u : Bool) (o : Option DeviceConfig) (c : Coordinator Msg)
      → Moves u (video c) (video (begin_with o u c).0)
  unfolding begin_with
  begin_with-Moves u none c = stays
  begin_with-Moves u (some config) c = go (video_is_locked c) refl
    where
      go :
          (b : Bool)
          → video_is_locked c ≡ b
          → Moves u (video c) (
              video
                (if b then (c, begin_duplicate c.video_session) else begin_locked c.client u c).0)
      go true e = stays
      go false e = begin_locked-Moves u c.client c e

  start_video_end-Moves :
      (u b : Bool) (r : Result VideoSession) (c : Coordinator Msg)
      → c.video_starting ≡ b
      → Moves u (video c) (video (if b then (start_video_end r c).0 else c))
  unfolding start_video_end notify_video_state_change call_each
  start_video_end-Moves u false r c e = stays
  start_video_end-Moves u true (err x) c e = fails e
  start_video_end-Moves u true (ok session) c e = publishes session e

  video-restart_notifications : (c : Coordinator Msg) → video (restart_notifications c) ≡ video c
  unfolding restart_notifications ensure_vip_listener
  video-restart_notifications c =
      video-ensure_with _ _ _ (pause_listener c.vip_listener c)
      ∙ video-pause_listener c.vip_listener c

  -- What the coordinator does to its video is what the abstract view allows, whatever the step: a
  -- session is published only by a start that holds the lock; a start begins only where no other
  -- one runs, and where the user has stopped video only if it is the user's; a start that reconnects
  -- first gives up then, or goes on and takes back a stop made meanwhile; everything else leaves
  -- video as it is, takes the session away, marks it as stopped, or lets the session change itself.
  pub step-Moves :
      (event : Event Msg) (c : Coordinator Msg)
      → Moves (is_user_start event) (video c) (video (step event c))
  unfolding step press_start auto_restart_video start_video_begin press_stop request_video_stop
      door_opened stop_after_delay on_video_call_end on_client_disconnect schedule async_update_data
      async_shutdown cancel_keepalive
  step-Moves start_pressed c = go c.config
    where
      go :
          (o : Option DeviceConfig)
          → Moves true (video c) (
              video (elim o as (λ x. Coordinator Msg) [
                | none ↦ c
                | some config ↦ (begin_with c.config true c).0
              ]))
      go none = stays
      go (some config) = begin_with-Moves true c.config c
  step-Moves auto_restart c = begin_with-Moves false c.config c
  step-Moves (reconnected device) c =
      start_video_reconnected-Moves false c.video_reconnecting device c refl
  step-Moves (session_started r) c = start_video_end-Moves false c.video_starting r c refl
  step-Moves stop_pressed c =
      subst (Moves false (video c))
        (sym (video-async_stop_video (record c { video_stopped_by_user = true }))) stops_and_asks
  step-Moves stop_requested c = subst (Moves false (video c)) (sym (video-async_stop_video c)) stops
  step-Moves door_pressed c = go (video_is_active c.video_session)
    where
      go :
          (b : Bool)
          → Moves false (video c) (
              video
                (if◌then◌else◌ {A = Coordinator Msg × Bool} b
                  (record c { video_stopped_by_user = true }, true)
                  (c, false)).0)
      go true = asks
      go false = stays
  step-Moves delay_over c = go (video_is_active c.video_session)
    where
      go : (b : Bool) → Moves false (video c) (video (if b then async_stop_video c else c))
      go true = subst (Moves false (video c)) (sym (video-async_stop_video c)) stops
      go false = stays
  step-Moves call_ended c =
      subst (Moves false (video c)) (sym (video-if c.video_stopped_by_user c _ (video c) refl refl))
        stays
  step-Moves connection_lost c = go c.client
    where
      go :
          (o : Option (Client Msg))
          → Moves false (video c) (
              video
                (elim o as (λ x. Coordinator Msg) [ none ↦ c | some client ↦ schedule refresh c ]))
      go none = stays
      go (some client) = stays
  step-Moves (refresh_due device) c =
      update_with-Moves (is_connected c.client) false c.config device c
  step-Moves (client_changes change) c = stays
  step-Moves (session_changes change) c = changes change
  step-Moves restart_notifications_pressed c =
      subst (Moves false (video c)) (sym (video-restart_notifications c)) stays
  step-Moves shut_down c =
      subst (Moves false (video c)) (sym (video-async_stop_video (cancel_keepalive c))) stops
