-- ===== src/Coordinator/Listener.antt =====
-- coordinator.py: `_ensure_vip_listener` and `async_restart_notifications`, and `start` of
-- `VipEventListener`, which attaches to the open CTPP channel.
use hass_comelit_intercom_lo.Base.{ℕ, Option, none, some, if◌then◌else◌}
use hass_comelit_intercom_lo.Models.{DeviceConfig}
use hass_comelit_intercom_lo.Client.State.{Channel, Client}
use hass_comelit_intercom_lo.Client.Calls.{get_channel}
use hass_comelit_intercom_lo.Vip.Listener.{Vip}
use hass_comelit_intercom_lo.Vip.Listener.{init as new_listener}
use hass_comelit_intercom_lo.VideoCall.Cleanup.{ctpp_name}
use hass_comelit_intercom_lo.Coordinator.State.{Coordinator, notify_vip_state_change}

-- The listener on the open CTPP channel: `none` is the `RuntimeError` where there is none.
unfoldable pub listener_on : Option Channel → DeviceConfig → ℕ → Option Vip
listener_on none config init_ts = none
listener_on (some ch) config init_ts =
    some (new_listener config.apt_address config.apt_subaddress ch init_ts)

module _ {Msg : Type 0} where
  -- VipEventListener(...) and its `start`
  unfoldable pub started_listener : Client Msg → DeviceConfig → ℕ → Option Vip
  unfolding listener_on
  started_listener client config init_ts = listener_on (get_channel ctpp_name client) config init_ts

  -- A listener that was started takes its place; an exception is only logged.
  unfoldable pub attach : Option Vip → Coordinator Msg → Coordinator Msg
  attach none c = c
  attach (some vip) c = record c { vip_listener = some vip }

  unfoldable pub ensure_with :
      Option Vip → Option DeviceConfig → Option (Client Msg) → Coordinator Msg → Coordinator Msg
  unfolding started_listener attach
  ensure_with none (some config) (some client) c =
      if c.notifications_enabled
      then attach (started_listener client config c.ctpp_init_ts) c
      else c
  ensure_with _ _ _ c = c

  unfoldable pub ensure_vip_listener : Coordinator Msg → Coordinator Msg
  unfolding ensure_with
  ensure_vip_listener c = ensure_with c.vip_listener c.config c.client c

  -- `if self._vip_listener:` with the listener's stop, and the notification.
  unfoldable pub pause_listener : Option Vip → Coordinator Msg → Coordinator Msg
  unfolding notify_vip_state_change
  pause_listener none c = c
  pause_listener (some vip) c = notify_vip_state_change (record c { vip_listener = none })

  unfoldable pub restart_notifications : Coordinator Msg → Coordinator Msg
  unfolding pause_listener ensure_vip_listener
  restart_notifications c = ensure_vip_listener (pause_listener c.vip_listener c)
