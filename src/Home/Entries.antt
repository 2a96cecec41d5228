-- ===== src/Home/Entries.antt =====
-- __init__.py: `async_setup_entry` and `async_unload_entry`.
use hass_comelit_intercom_lo.Base.{
  Bool, true, false, Result, ok, err, Error, authentication_error, auth_failed, not_ready,
}
use hass_comelit_intercom_lo.Base.Bytes.{Str}
use hass_comelit_intercom_lo.Rtsp.Server.{Server}
use hass_comelit_intercom_lo.Coordinator.State.{Coordinator, init}
use hass_comelit_intercom_lo.Coordinator.Connection.{Device, async_setup, async_shutdown}

-- The `except` clauses around the coordinator's set-up.
unfoldable pub setup_error : Error → Error
setup_error authentication_error = auth_failed
setup_error other = not_ready

module _ {Msg : Type 0} where
  unfoldable pub entry_end : Coordinator Msg × Result (Unit {0}) → Result (Coordinator Msg)
  unfolding setup_error
  entry_end (c, err e) = err (setup_error e)
  entry_end (c, ok done) = ok c

  -- The entry's coordinator, from its option for notifications.
  unfoldable pub async_setup_entry : Bool → Device Msg → Str → Server → Result (Coordinator Msg)
  unfolding entry_end
  async_setup_entry notifications device url started =
      entry_end (async_setup device url started (init notifications))

  -- Whether the platforms could be unloaded is Home Assistant's answer.
  unfoldable pub async_unload_entry : Bool → Coordinator Msg → Coordinator Msg × Bool
  async_unload_entry true c = (async_shutdown c, true)
  async_unload_entry false c = (c, false)
