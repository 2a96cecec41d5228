-- ===== src/Coordinator/Refresh.antt =====
-- coordinator.py: the health check while the device takes no connection.
use hass_comelit_intercom_lo.Base.{
  ℕ, suc, ◌+◌, ◌≡◌, refl, sym, ◌∙◌, ap, subst, false, Option, none, some, List, [], ◌∷◌, Result, ok,
  err, update_failed, connection_error, ltb, arith, All, length, replicate, if◌then◌else◌,
}
use hass_comelit_intercom_lo.Models.{DeviceConfig}
use hass_comelit_intercom_lo.Vip.Listener.{Vip}
use hass_comelit_intercom_lo.VideoCall.Session.{VideoSession}
use hass_comelit_intercom_lo.Coordinator.State.{
  Coordinator, cancel_keepalive, notify_vip_state_change, call_each,
}
use hass_comelit_intercom_lo.Coordinator.Listener.{pause_listener}
use hass_comelit_intercom_lo.Coordinator.Connection.{
  Device, connect_within, log_in, drop_session, tear_down, reconnect, is_connected, refreshed,
  update_with, async_update_data,
}

module _ {Msg : Type 0} where
  -- The four attempts of a reconnect all fail.
  abbrev pub Refuses : Device Msg → Type 0
  Refuses device = connect_within 4 device.connects ≡ false

  -- One health check after another: what each gives, and the state behind them.
  unfoldable pub refresh_all :
      List (Device Msg) → Coordinator Msg → List (Result (Option DeviceConfig)) × Coordinator Msg
  refresh_all [] c = ([], c)
  refresh_all (device ∷ devices) c =
      let (c', r) = async_update_data device c in
      let (rs, c'') = refresh_all devices c' in (r ∷ rs, c'')

  -- The fields that the check goes by, without a connection.
  abbrev pub IsLost : ℕ → Option DeviceConfig → Coordinator Msg → Type 0
  IsLost failures config c =
      (is_connected c.client ≡ false)
      × (c.config ≡ config)
      × (c.consecutive_reconnect_failures ≡ failures)

  paused-IsLost :
      (failures : ℕ) (config : Option DeviceConfig) (o : Option Vip) (c : Coordinator Msg)
      → c.config ≡ config
      → c.consecutive_reconnect_failures ≡ failures
      → IsLost failures config (record (pause_listener o c) { client = none })
  unfolding pause_listener notify_vip_state_change call_each is_connected
  paused-IsLost failures config none c e k = (refl, e, k)
  paused-IsLost failures config (some vip) c e k = (refl, e, k)

  tear_down-IsLost :
      (failures : ℕ) (config : Option DeviceConfig) (c : Coordinator Msg)
      → c.config ≡ config
      → c.consecutive_reconnect_failures ≡ failures
      → IsLost failures config (tear_down c)
  unfolding tear_down drop_session cancel_keepalive
  tear_down-IsLost failures config c e k = go c.video_session
    where
      go :
          (o : Option VideoSession)
          → let c1 = drop_session o (cancel_keepalive c) in
            IsLost failures config (record (pause_listener c1.vip_listener c1) { client = none })
      go none = paused-IsLost failures config c.vip_listener _ e k
      go (some session) = paused-IsLost failures config c.vip_listener _ e k

  -- One check that fails.
  refused :
      (failures : ℕ) (config : Option DeviceConfig) (device : Device Msg) (c : Coordinator Msg)
      → IsLost failures config c
      → Refuses device
      → ((async_update_data device c).1
          ≡ (if ltb (failures + 1) 2 then ok config else err update_failed))
        × IsLost (failures + 1) config (async_update_data device c).0
  unfolding async_update_data update_with reconnect refreshed is_connected
  refused failures config device c lost refuses =
      let torn = tear_down-IsLost failures config c lost.1 lost.2 in
      let same : async_update_data device c ≡ refreshed (tear_down c, err connection_error) =
        ap (λ b. update_with b c.config device c) lost.0
        ∙ ap
            (λ b. refreshed (
              if b
              then log_in device device.login device.registered (tear_down c)
              else (tear_down c, err connection_error)))
            refuses in
      subst
        (λ r.
          (r.1 ≡ (if ltb (failures + 1) 2 then ok config else err update_failed))
          × IsLost (failures + 1) config r.0)
        (sym same)
        (
          ap (λ k. if ltb (k + 1) 2 then ok (tear_down c).config else err update_failed) torn.2
              ∙ ap (λ o. if ltb (failures + 1) 2 then ok o else err update_failed) torn.1,
          (torn.0, torn.1, ap (λ k. k + 1) torn.2),
        )

  -- Behind the first failure every check fails.
  refused_again :
      (failures : ℕ) (config : Option DeviceConfig) (devices : List (Device Msg))
      (c : Coordinator Msg)
      → IsLost (suc failures) config c
      → All Refuses devices
      → ((refresh_all devices c).0 ≡ replicate (length devices) (err update_failed))
        × ((refresh_all devices c).1.consecutive_reconnect_failures ≡ suc failures + length devices)
  unfolding refresh_all
  refused_again failures config [] c lost refuse = (refl, omega (arith, lost.2))
  refused_again failures config (device ∷ devices) c lost refuse =
      let once = refused (suc failures) config device c lost refuse.0 in
      let lost' : IsLost (suc (suc failures)) config (async_update_data device c).0 =
        (once.1.0, once.1.1, omega (arith, once.1.2)) in
      let rest =
        refused_again (suc failures) config devices (async_update_data device c).0 lost' refuse.1 in
      let late : ltb (suc failures + 1) 2 ≡ false = ground arith in
      (
        ap (λ r. r ∷ (refresh_all devices (async_update_data device c).0).0)
              (once.0 ∙ ap (λ b. if b then ok config else err update_failed) late)
            ∙ ap (λ rs. err update_failed ∷ rs) rest.0,
        omega (arith, rest.1),
      )

  -- While the device takes no connection, the first check after the loss keeps the configuration,
  -- and every further one fails; the failures are counted.
  pub refresh_all-fails :
      (config : Option DeviceConfig) (device : Device Msg) (devices : List (Device Msg))
      (c : Coordinator Msg)
      → IsLost 0 config c
      → All Refuses (device ∷ devices)
      → ((refresh_all (device ∷ devices) c).0
          ≡ ok config ∷ replicate (length devices) (err update_failed))
        × ((refresh_all (device ∷ devices) c).1.consecutive_reconnect_failures
            ≡ suc (length devices))
  unfolding refresh_all
  refresh_all-fails config device devices c lost refuse =
      let once = refused 0 config device c lost refuse.0 in
      let rest = refused_again 0 config devices (async_update_data device c).0 once.1 refuse.1 in
      (
        ap (λ r. r ∷ (refresh_all devices (async_update_data device c).0).0) once.0
            ∙ ap (λ rs. ok config ∷ rs) rest.0,
        omega (arith, rest.1),
      )
