-- ===== src/Coordinator/Views.antt =====
-- coordinator.py: what the coordinator's methods do to the abstract view of the video.
use hass_comelit_intercom_lo.Base.{
  ℕ, ◌≡◌, ◌∙◌, refl, connection_error, Bool, true, false, Option, none, some, Result, ok, err,
  if◌then◌else◌,
}
use hass_comelit_intercom_lo.Client.State.{Client}
use hass_comelit_intercom_lo.VideoCall.Session.{VideoSession, Call}
use hass_comelit_intercom_lo.VideoCall.Session.{init as new_session}
use hass_comelit_intercom_lo.Models.{DeviceConfig}
use hass_comelit_intercom_lo.Vip.Listener.{Vip}
use hass_comelit_intercom_lo.Coordinator.State.{
  Coordinator, call_each, notify_vip_state_change, notify_video_state_change, start_keepalive,
  cancel_keepalive, video_is_locked,
}
use hass_comelit_intercom_lo.Coordinator.Listener.{
  started_listener, attach, ensure_with, ensure_vip_listener, pause_listener,
}
use hass_comelit_intercom_lo.Coordinator.Stopping.{stop_this, async_stop_video}
use hass_comelit_intercom_lo.Coordinator.Connection.{
  Device, connect_within, open_ctpp_channels, listen_on, start_listening, log_in, drop_session,
  tear_down, reconnect, refreshed,
}
use hass_comelit_intercom_lo.Coordinator.Streaming.{clear_the_way}
use hass_comelit_intercom_lo.Coordinator.Abstract.{Video, vstop_on, vstop, video}

module _ {Msg : Type 0} where
  pub video-ensure_with :
      (o : Option Vip) (p : Option DeviceConfig) (q : Option (Client Msg)) (c : Coordinator Msg)
      → video (ensure_with o p q c) ≡ video c
  unfolding ensure_with
  video-ensure_with (some vip) p q c = refl
  video-ensure_with none none q c = refl
  video-ensure_with none (some config) none c = refl
  video-ensure_with none (some config) (some client) c =
      go c.notifications_enabled (started_listener client config c.ctpp_init_ts)
    where
      attached : (o : Option Vip) → video (attach o c) ≡ video c
      attached none = unfold attach in refl
      attached (some vip) = unfold attach in refl

      go : (b : Bool) (o : Option Vip) → video (if b then attach o c else c) ≡ video c
      go true o = attached o
      go false o = refl

  pub video-pause_listener :
      (o : Option Vip) (c : Coordinator Msg) → video (pause_listener o c) ≡ video c
  unfolding pause_listener notify_vip_state_change call_each
  video-pause_listener none c = refl
  video-pause_listener (some vip) c = refl

  pub video-if :
      (b : Bool) (x y : Coordinator Msg) (v : Video)
      → video x ≡ v
      → video y ≡ v
      → video (if b then x else y) ≡ v
  video-if true x y v p q = p
  video-if false x y v p q = q

  video-stop_this :
      (o : Option VideoSession) (c : Coordinator Msg) → video (stop_this o c) ≡ vstop_on o (video c)
  unfolding stop_this call_each notify_video_state_change ensure_vip_listener
  video-stop_this none c = refl
  video-stop_this (some session) c =
      video-if (video_is_locked c) _ _ (vstop_on (some session) (video c)) refl
        (video-ensure_with _ _ _ _)

  pub video-async_stop_video : (c : Coordinator Msg) → video (async_stop_video c) ≡ vstop (video c)
  unfolding async_stop_video
  video-async_stop_video c = video-stop_this c.video_session c

  video-listen_on :
      (r : Call Msg × Result (Unit {0})) (config : DeviceConfig) (now : ℕ) (c : Coordinator Msg)
      → video (listen_on r config now c) ≡ video c
  unfolding listen_on
  video-listen_on (s, err e) config now c = refl
  video-listen_on (s, ok done) config now c = go (started_listener s.client config now)
    where
      listening : Coordinator Msg
      listening = record c { client = some s.client; ctpp_init_ts = now }

      go :
          (o : Option Vip)
          → video (elim o as (λ x. Coordinator Msg) [
            | none ↦ listening
            | some vip ↦ notify_vip_state_change (record listening { vip_listener = some vip })
          ])
            ≡ video c
      go none = refl
      go (some vip) = unfold notify_vip_state_change call_each in refl

  video-start_listening :
      (device : Device Msg) (config : DeviceConfig) (c : Coordinator Msg)
      → video (start_listening device config c) ≡ video c
  unfolding start_listening
  video-start_listening device config c =
      let s : Call Msg = record {
        client = device.fresh;
        waits = device.waits;
        session = new_session false none;
      } in
      video-if c.notifications_enabled
        (listen_on (open_ctpp_channels config device.now s) config device.now c) c (video c)
        (video-listen_on (open_ctpp_channels config device.now s) config device.now c) refl

  video-log_in :
      (device : Device Msg) (p : Result DeviceConfig) (q : Result (Unit {0})) (c : Coordinator Msg)
      → video (log_in device p q c).0 ≡ video c
  unfolding log_in start_keepalive
  video-log_in device (err e) q c = refl
  video-log_in device (ok config) (err e) c = refl
  video-log_in device (ok config) (ok done) c =
      video-start_listening device config
        (record c { config = some config; client = some device.fresh })

  video-drop_session :
      (o : Option VideoSession) (c : Coordinator Msg)
      → video (drop_session o c) ≡ vstop_on o (video c)
  unfolding drop_session
  video-drop_session none c = refl
  video-drop_session (some session) c = refl

  video-tear_down : (c : Coordinator Msg) → video (tear_down c) ≡ vstop (video c)
  unfolding tear_down cancel_keepalive
  video-tear_down c =
      video-pause_listener _ (drop_session c.video_session (cancel_keepalive c))
      ∙ video-drop_session c.video_session (cancel_keepalive c)

  -- A reconnect, whether it works or not, takes the session away and does nothing else.
  pub video-reconnect :
      (device : Device Msg) (c : Coordinator Msg) → video (reconnect device c).0 ≡ vstop (video c)
  unfolding reconnect
  video-reconnect device c = go (connect_within 4 device.connects)
    where
      go :
          (b : Bool)
          → video
              (if b
                then log_in device device.login device.registered (tear_down c)
                else (tear_down c, err connection_error)).0
            ≡ vstop (video c)
      go true = video-log_in device device.login device.registered (tear_down c) ∙ video-tear_down c
      go false = video-tear_down c

  pub video-refreshed :
      (r : Coordinator Msg × Result (Unit {0})) → video (refreshed r).0 ≡ video r.0
  unfolding refreshed
  video-refreshed (c, ok done) = refl
  video-refreshed (c, err e) = refl

  pub video-clear_the_way :
      (c : Coordinator Msg)
      → video (clear_the_way c)
        ≡ vstop (record (video c) { stopped = false; starting = true; reconnecting = false })
  unfolding clear_the_way
  video-clear_the_way c =
      let c' = record c {
        video_stopped_by_user = false;
        video_starting = true;
        video_reconnecting = false;
      } in
      video-pause_listener _ (async_stop_video c') ∙ video-async_stop_video c'
