-- ===== src/Coordinator/Starts.antt =====
-- coordinator.py: what a start of the video leads to.
use hass_comelit_intercom_lo.Base.{
  ◌≡◌, refl, ◌∙◌, ap, Bool, true, false, not, ◌&&◌, Option, none, some, [], ◌∷◌, Result, ok, err,
  video_stopped, if◌then◌else◌,
}
use hass_comelit_intercom_lo.Models.{DeviceConfig}
use hass_comelit_intercom_lo.Client.State.{Client}
use hass_comelit_intercom_lo.Vip.Listener.{Vip}
use hass_comelit_intercom_lo.VideoCall.Session.{VideoSession}
use hass_comelit_intercom_lo.Coordinator.State.{
  Coordinator, notify_vip_state_change, notify_video_state_change, call_each, video_is_locked,
}
use hass_comelit_intercom_lo.Coordinator.Listener.{pause_listener}
use hass_comelit_intercom_lo.Coordinator.Stopping.{stop_this, async_stop_video}
use hass_comelit_intercom_lo.Coordinator.Streaming.{
  Begun, starts, await_connection, returns, clear_the_way, begin_on, begin_locked, begin_duplicate,
  begin_with, start_video_begin, start_video_end,
}
use hass_comelit_intercom_lo.Coordinator.Doors.{press_start}
use hass_comelit_intercom_lo.Coordinator.Steps.{start_pressed, session_started, step, run}
use hass_comelit_intercom_lo.Coordinator.Abstract.{Video, vstop_on, vstop, video}
use hass_comelit_intercom_lo.Coordinator.Views.{video-clear_the_way}

vstop_session : (o : Option VideoSession) (v : Video) → v.session ≡ o → (vstop v).session ≡ none
vstop_session none v e = ap (λ o. (vstop_on o v).session) e ∙ e
vstop_session (some s) v e = ap (λ o. (vstop_on o v).session) e

vstop_starting : (o : Option VideoSession) (v : Video) → (vstop_on o v).starting ≡ v.starting
vstop_starting none v = refl
vstop_starting (some s) v = refl

vstop_stopped : (o : Option VideoSession) (v : Video) → (vstop_on o v).stopped ≡ v.stopped
vstop_stopped none v = refl
vstop_stopped (some s) v = refl

user_may_start : (b : Bool) → b && not true ≡ false
user_may_start true = refl
user_may_start false = refl

module _ {Msg : Type 0} where
  pub stop_nothing : (c : Coordinator Msg) → c.video_session ≡ none → async_stop_video c ≡ c
  unfolding async_stop_video stop_this
  stop_nothing c e = ap (λ o. stop_this o c) e

  paused :
      (o : Option Vip) (c : Coordinator Msg)
      → c.vip_listener ≡ o
      → (pause_listener o c).vip_listener ≡ none
  unfolding pause_listener notify_vip_state_change call_each
  paused none c e = e
  paused (some vip) c e = refl

  -- A start that waits for its session holds the lock, with neither session nor listener.
  abbrev pub IsCleared : Coordinator Msg → Type 0
  IsCleared c =
      (c.video_session ≡ none)
      × (c.vip_listener ≡ none)
      × (c.video_starting ≡ true)
      × (c.video_stopped_by_user ≡ false)

  clear_the_way-IsCleared : (c : Coordinator Msg) → IsCleared (clear_the_way c)
  unfolding clear_the_way
  clear_the_way-IsCleared c =
      let cleared = video-clear_the_way c in
      let v : Video = record (video c) { stopped = false; starting = true; reconnecting = false } in
      (
        ap (λ w. w.session) cleared ∙ vstop_session v.session v refl,
        paused _
            (async_stop_video (record c {
              video_stopped_by_user = false;
              video_starting = true;
              video_reconnecting = false;
            }))
            refl,
        ap (λ w. w.starting) cleared ∙ vstop_starting v.session v,
        ap (λ w. w.stopped) cleared ∙ vstop_stopped v.session v,
      )

  abbrev pub IfStarts : Coordinator Msg × Result Begun → Type 0
  IfStarts (c, ok starts) = IsCleared c
  IfStarts (c, ok await_connection) = Unit
  IfStarts (c, ok (returns session)) = Unit
  IfStarts (c, err e) = Unit

  pub begin_on-IfStarts : (r : Coordinator Msg × Result (Unit {0})) → IfStarts (begin_on r)
  unfolding begin_on
  begin_on-IfStarts (c, err e) = tt
  begin_on-IfStarts (c, ok done) = clear_the_way-IsCleared c

  locked-IfStarts :
      (o : Option (Client Msg)) (u : Bool) (c : Coordinator Msg) → IfStarts (begin_locked o u c)
  unfolding begin_locked
  locked-IfStarts none u c = tt
  locked-IfStarts (some client) u c = go (c.video_stopped_by_user && not u) client.connected
    where
      go :
          (b b' : Bool)
          → IfStarts (
              if b
              then (c, err video_stopped)
              else if b'
              then (clear_the_way c, ok starts)
              else (record c { video_reconnecting = true }, ok await_connection))
      go true b' = tt
      go false true = clear_the_way-IsCleared c
      go false false = tt

  pub begin-IfStarts :
      (o : Option DeviceConfig) (u : Bool) (c : Coordinator Msg) → IfStarts (begin_with o u c)
  unfolding begin_with
  begin-IfStarts none u c = tt
  begin-IfStarts (some config) u c = go (video_is_locked c) c.video_session
    where
      go :
          (b : Bool) (o : Option VideoSession)
          → IfStarts (if b then (c, begin_duplicate o) else begin_locked c.client u c)
      go true none = unfold begin_duplicate in tt
      go true (some session) = unfold begin_duplicate in tt
      go false o = locked-IfStarts c.client u c

  press_start-clears :
      (config : DeviceConfig) (client : Client Msg) (c : Coordinator Msg)
      → c.config ≡ some config
      → c.client ≡ some client
      → client.connected ≡ true
      → video_is_locked c ≡ false
      → press_start c ≡ clear_the_way c
  unfolding press_start start_video_begin begin_with begin_locked
  press_start-clears config client c has_config has_client connected idle =
      let begun : start_video_begin true c ≡ (clear_the_way c, ok starts) =
        ap (λ o. begin_with o true c) has_config
        ∙ ap (λ b. if b then (c, begin_duplicate c.video_session) else begin_locked c.client true c)
            idle
        ∙ ap (λ o. begin_locked o true c) has_client
        ∙ ap
            (λ b.
              if b
              then (c, err video_stopped)
              else if client.connected
              then (clear_the_way c, ok starts)
              else (record c { video_reconnecting = true }, ok await_connection))
            (user_may_start c.video_stopped_by_user)
        ∙ ap
            (λ b.
              if b
              then (clear_the_way c, ok starts)
              else (record c { video_reconnecting = true }, ok await_connection))
            connected in
      ap
        (λ o. elim o as (λ x. Coordinator Msg) [
          | none ↦ c
          | some config ↦ (start_video_begin true c).0
        ])
        has_config
      ∙ ap (λ r. r.0) begun

  -- Where the device is configured and connected and no other start runs, a start of the user's
  -- whose session starts brings it about, also after a stop: it is published and ready, the stop is
  -- taken back, the lock given back, and the listener paused.
  pub start_pressed-publishes :
      (config : DeviceConfig) (client : Client Msg) (session : VideoSession) (c : Coordinator Msg)
      → c.config ≡ some config
      → c.client ≡ some client
      → client.connected ≡ true
      → video_is_locked c ≡ false
      → let c' = run (start_pressed ∷ session_started (ok session) ∷ []) c in
        (c'.video_session ≡ some session)
        × (c'.video_ready_event ≡ true)
        × (c'.video_stopped_by_user ≡ false)
        × (c'.video_starting ≡ false)
        × (c'.vip_listener ≡ none)
  unfolding run step start_video_end notify_video_state_change call_each
  start_pressed-publishes config client session c has_config has_client connected idle =
      let cleared = clear_the_way-IsCleared c in
      rw (press_start-clears config client c has_config has_client connected idle)
        (rw cleared.2 (refl, refl, cleared.3, refl, cleared.1))
