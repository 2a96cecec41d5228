-- ===== src/Coordinator/Races.antt =====
-- coordinator.py: starts that fail or meet a stop, and a listener that meets a session.
use hass_comelit_intercom_lo.Base.{
  ◌≡◌, refl, ◌∙◌, ap, subst, sym, Bool, true, false, Option, none, some, [], ◌∷◌, ◌⊎◌, inl, inr,
  arith, Result, ok, err, Error, if◌then◌else◌,
}
use hass_comelit_intercom_lo.Models.{DeviceConfig}
use hass_comelit_intercom_lo.Client.State.{Channel, Client}
use hass_comelit_intercom_lo.Client.Calls.{get_channel}
use hass_comelit_intercom_lo.Vip.Listener.{Vip}
use hass_comelit_intercom_lo.Vip.Listener.{init as new_listener}
use hass_comelit_intercom_lo.VideoCall.Session.{VideoSession}
use hass_comelit_intercom_lo.VideoCall.Cleanup.{ctpp_name}
use hass_comelit_intercom_lo.Coordinator.State.{
  Coordinator, notify_vip_state_change, notify_video_state_change, call_each, request_video_stop,
}
use hass_comelit_intercom_lo.Coordinator.Listener.{
  pause_listener, ensure_with, ensure_vip_listener, attach, listener_on, started_listener,
  restart_notifications,
}
use hass_comelit_intercom_lo.Coordinator.Connection.{Device, reconnect}
use hass_comelit_intercom_lo.Coordinator.Streaming.{
  starts, begin_on, start_video_begin, start_video_reconnected, start_video_end,
}
use hass_comelit_intercom_lo.Coordinator.Doors.{press_stop}
use hass_comelit_intercom_lo.Coordinator.Steps.{
  reconnected, session_started, stop_pressed, step, run,
}
use hass_comelit_intercom_lo.Coordinator.Starts.{
  stop_nothing, IsCleared, IfStarts, begin_on-IfStarts, begin-IfStarts,
}

module _ {Msg : Type 0} where
  -- Where a start of the video has begun, at once or behind a reconnect, and its session fails, the listener that it has paused is
  -- not started again, and a stop of the user's does not start it either.
  pub start_video_end-deaf :
      (by_user : Bool) (device : Device Msg) (e : Error) (c c' : Coordinator Msg)
      → (start_video_begin by_user c ≡ (c', ok starts))
        ⊎ (start_video_reconnected device c ≡ (c', ok starts))
      → let failed = (start_video_end (err e) c').0 in
        (failed.video_session ≡ none)
        × (failed.vip_listener ≡ none)
        × (failed.video_starting ≡ false)
        × ((press_stop failed).vip_listener ≡ none)
  unfolding start_video_begin start_video_reconnected start_video_end press_stop request_video_stop
  start_video_end-deaf by_user device e c c' begun =
      let cleared : IsCleared c' = elim begun [
        | inl at_once ↦ subst IfStarts at_once (begin-IfStarts c.config by_user c)
        | inr later ↦ subst IfStarts later (begin_on-IfStarts (reconnect device c))
      ] in
      let failed = record c' { video_starting = false; video_stopped_by_user = true } in
      (
        cleared.0,
        cleared.1,
        refl,
        ap (λ d. d.vip_listener) (stop_nothing failed cleared.0) ∙ cleared.1,
      )

  -- A stop that the user asks for while a start waits for its session changes nothing: the session
  -- is published all the same once it has started.
  pub stop_pressed-lost :
      (session : VideoSession) (c : Coordinator Msg)
      → c.video_starting ≡ true
      → c.video_session ≡ none
      → let c' = run (stop_pressed ∷ session_started (ok session) ∷ []) c in
        (c'.video_session ≡ some session)
        × (c'.video_ready_event ≡ true)
        × (c'.video_stopped_by_user ≡ true)
  unfolding run step press_stop request_video_stop start_video_end notify_video_state_change
      call_each
  stop_pressed-lost session c held nothing =
      rw (stop_nothing (record c { video_stopped_by_user = true }) nothing, held) (refl, refl, refl)

  resumed : (r : Coordinator Msg × Result (Unit {0})) → r.1 ≡ ok tt → IsCleared (begin_on r).0
  unfolding begin_on
  resumed (c, ok done) e = begin_on-IfStarts (c, ok done)
  resumed (c, err x) e = absurd (ground (arith, e))

  abbrev IsPublished : VideoSession → Coordinator Msg → Type 0
  IsPublished session c =
      (c.video_session ≡ some session)
      × (c.video_ready_event ≡ true)
      × (c.video_stopped_by_user ≡ false)

  published :
      (session : VideoSession) (c : Coordinator Msg)
      → IsCleared c
      → IsPublished session (step (session_started (ok session)) c)
  unfolding step start_video_end notify_video_state_change call_each
  published session c cleared = rw cleared.2 (refl, refl, cleared.3)

  step_reconnected :
      (device : Device Msg) (c : Coordinator Msg)
      → c.video_reconnecting ≡ true
      → step (reconnected device) c ≡ (begin_on (reconnect device c)).0
  unfolding step start_video_reconnected
  step_reconnected device c held = ap (λ b. if b then (begin_on (reconnect device c)).0 else c) held

  -- A stop that the user asks for while a start waits for its reconnect is taken back where that
  -- reconnect works: the session is published once it has started, and video does not even count
  -- as stopped by the user.
  pub stop_pressed-overwritten :
      (device : Device Msg) (session : VideoSession) (c : Coordinator Msg)
      → c.video_reconnecting ≡ true
      → c.video_session ≡ none
      → (reconnect device (press_stop c)).1 ≡ ok tt
      → let c' = run (stop_pressed ∷ reconnected device ∷ session_started (ok session) ∷ []) c in
        (c'.video_session ≡ some session)
        × (c'.video_ready_event ≡ true)
        × (c'.video_stopped_by_user ≡ false)
  unfolding run
  stop_pressed-overwritten device session c held nothing works =
      let c1 = record c { video_stopped_by_user = true } in
      let same : step stop_pressed c ≡ c1 =
        unfold step press_stop request_video_stop in stop_nothing c1 nothing in
      let resuming : step (reconnected device) (step stop_pressed c)
          ≡ (begin_on (reconnect device (step stop_pressed c))).0 =
        step_reconnected device (step stop_pressed c)
          (ap (λ d. d.video_reconnecting) same ∙ held) in
      published session (step (reconnected device) (step stop_pressed c))
        (subst IsCleared (sym resuming) (resumed _ (unfold step in works)))

  ensure_of_open :
      (config : DeviceConfig) (client : Client Msg) (ch : Channel) (c : Coordinator Msg)
      → c.vip_listener ≡ none
      → c.config ≡ some config
      → c.client ≡ some client
      → get_channel ctpp_name client ≡ some ch
      → c.notifications_enabled ≡ true
      → ensure_vip_listener c ≡ record c {
        vip_listener =
            some (new_listener config.apt_address config.apt_subaddress ch c.ctpp_init_ts);
      }
  unfolding ensure_vip_listener ensure_with attach started_listener listener_on
  ensure_of_open config client ch c quiet has_config has_client found enabled =
      ap (λ o. ensure_with o c.config c.client c) quiet
      ∙ ap (λ o. ensure_with none o c.client c) has_config
      ∙ ap (λ o. ensure_with none (some config) o c) has_client
      ∙ ap (λ b. if b then attach (started_listener client config c.ctpp_init_ts) c else c) enabled
      ∙ ap (λ o. attach (listener_on o config c.ctpp_init_ts) c) found

  -- Notifications that are restarted while a session runs on an open CTPP channel start the listener
  -- beside it, on the same channel.
  pub restart_notifications-beside :
      (config : DeviceConfig) (client : Client Msg) (ch : Channel) (session : VideoSession)
      (c : Coordinator Msg)
      → c.config ≡ some config
      → c.client ≡ some client
      → get_channel ctpp_name client ≡ some ch
      → c.notifications_enabled ≡ true
      → c.video_session ≡ some session
      → let c' = restart_notifications c in
        ((vip : Vip) × (c'.vip_listener ≡ some vip) × (vip.channel ≡ ch))
        × (c'.video_session ≡ some session)
  unfolding restart_notifications pause_listener notify_vip_state_change call_each new_listener
  restart_notifications-beside config client ch session c has_config has_client found enabled
        running =
      go c.vip_listener refl
    where
      go :
          (o : Option Vip)
          → c.vip_listener ≡ o
          → let c' = ensure_vip_listener (pause_listener o c) in
            ((vip : Vip) × (c'.vip_listener ≡ some vip) × (vip.channel ≡ ch))
            × (c'.video_session ≡ some session)
      go none e =
          rw
            (ensure_of_open config client ch (pause_listener none c) e has_config has_client found
              enabled)
            ((_, refl, refl), running)
      go (some vip) e =
          rw
            (ensure_of_open config client ch (pause_listener (some vip) c) refl has_config
              has_client found enabled)
            ((_, refl, refl), running)
