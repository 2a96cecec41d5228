-- ===== src/Coordinator/Connection.antt =====
-- coordinator.py: `async_setup`, `_reconnect`, `async_shutdown` and `_async_update_data`. The device's
-- part is an argument: which attempts to connect it takes, and what it answers.
use hass_comelit_intercom_lo.Base.{
  ℕ, zero, suc, ◌+◌, Bool, true, false, Option, none, some, List, [], ◌∷◌, Result, ok, err,
  connection_error, update_failed, ltb, if◌then◌else◌,
}
use hass_comelit_intercom_lo.Base.Bytes.{Str}
use hass_comelit_intercom_lo.Models.{DeviceConfig, our_address}
use hass_comelit_intercom_lo.Client.State.{Client, ctpp, cspb}
use hass_comelit_intercom_lo.Rtsp.Server.{Server}
use hass_comelit_intercom_lo.VideoCall.Session.{VideoSession, Call, Act, ◌>>=◌, ◌>>◌, open_channel}
use hass_comelit_intercom_lo.VideoCall.Session.{init as new_session}
use hass_comelit_intercom_lo.VideoCall.Cleanup.{ctpp_name, cspb_name}
use hass_comelit_intercom_lo.VideoCall.Start.{init_sequence}
use hass_comelit_intercom_lo.Coordinator.State.{
  Coordinator, start_keepalive, cancel_keepalive, notify_vip_state_change,
}
use hass_comelit_intercom_lo.Coordinator.Listener.{started_listener, pause_listener}
use hass_comelit_intercom_lo.Coordinator.Stopping.{stop_session, block_clients, async_stop_video}

-- The device's part of a connection. `fresh` is the client once its `connect` has returned; `login` is
-- what `authenticate` and `get_device_config` give, `registered` what `register_push` does, and `waits` and
-- `now` are those of the CTPP handshake.
pub record Device (Msg : Type 0) : Type 0 where
  pub connects : List Bool
  pub fresh : Client Msg
  pub login : Result DeviceConfig
  pub registered : Result (Unit {0})
  pub waits : List (Client Msg → Client Msg)
  pub now : ℕ

-- The loop over at most n attempts to connect: is one of them taken?
unfoldable pub connect_within : ℕ → List Bool → Bool
connect_within zero attempts = false
connect_within (suc n) [] = false
connect_within (suc n) (true ∷ attempts) = true
connect_within (suc n) (false ∷ attempts) = connect_within n attempts

module _ {Msg : Type 0} where
  -- `_open_ctpp_channels`
  unfoldable pub open_ctpp_channels : DeviceConfig → ℕ → Act Msg (Unit {0})
  open_ctpp_channels config now = do
    ch ← open_channel ctpp_name ctpp (some (our_address config)) 0 none
    open_channel cspb_name cspb none 0 none
    init_sequence ch config.apt_address config.apt_subaddress (our_address config) now

  -- The listener of a fresh connection: started, unless the handshake or the start raises.
  unfoldable pub listen_on :
      Call Msg × Result (Unit {0}) → DeviceConfig → ℕ → Coordinator Msg → Coordinator Msg
  listen_on (s, err e) config now c = record c { client = some s.client }
  listen_on (s, ok done) config now c =
      let opened = record c { client = some s.client; ctpp_init_ts = now } in
      elim (started_listener s.client config now) as (λ o. Coordinator Msg) [
        | none ↦ opened
        | some vip ↦ notify_vip_state_change (record opened { vip_listener = some vip })
      ]

  unfoldable pub start_listening : Device Msg → DeviceConfig → Coordinator Msg → Coordinator Msg
  unfolding open_ctpp_channels listen_on
  start_listening device config c =
      if c.notifications_enabled
      then (let s : Call Msg = record {
        client = device.fresh;
        waits = device.waits;
        session = new_session false none;
      } in
          listen_on (open_ctpp_channels config device.now s) config device.now c)
      else c

  -- From `authenticate` on. The configuration is stored before `register_push` is called.
  unfoldable pub log_in :
      Device Msg
      → Result DeviceConfig
      → Result (Unit {0})
      → Coordinator Msg
      → Coordinator Msg × Result (Unit {0})
  unfolding start_listening
  log_in device (err e) push c = (c, err e)
  log_in device (ok config) (err e) c = (record c { config = some config }, err e)
  log_in device (ok config) (ok done) c =
      let connected = record c { config = some config; client = some device.fresh } in
      (start_keepalive (start_listening device config connected), ok tt)

  -- The old session, listener and client are let go.
  unfoldable pub drop_session : Option VideoSession → Coordinator Msg → Coordinator Msg
  drop_session none c = c
  drop_session (some session) c = record c {
    video_session = none;
    video_ready_event = false;
    client = stop_session session c.client;
    rtsp_server = block_clients c.rtsp_server;
  }

  unfoldable pub tear_down : Coordinator Msg → Coordinator Msg
  unfolding drop_session
  tear_down c =
      let c1 = drop_session c.video_session (cancel_keepalive c) in
      record (pause_listener c1.vip_listener c1) { client = none }

  unfoldable pub reconnect : Device Msg → Coordinator Msg → Coordinator Msg × Result (Unit {0})
  unfolding connect_within log_in tear_down
  reconnect device c =
      if connect_within 4 device.connects
      then log_in device device.login device.registered (tear_down c)
      else (tear_down c, err connection_error)

  -- The server that is kept for all sessions, with its address.
  unfoldable pub start_server : Str → Server → Option Server → Coordinator Msg → Coordinator Msg
  start_server url started none c = record c { rtsp_server = some started; rtsp_url = some url }
  start_server url started (some server) c = c

  unfoldable pub setup_end :
      Str → Server → Coordinator Msg × Result (Unit {0}) → Coordinator Msg × Result (Unit {0})
  unfolding start_server
  setup_end url started (c, err e) = (c, err e)
  setup_end url started (c, ok done) = (start_server url started c.rtsp_server c, ok tt)

  -- `async_setup`: one attempt to connect.
  unfoldable pub async_setup :
      Device Msg → Str → Server → Coordinator Msg → Coordinator Msg × Result (Unit {0})
  unfolding setup_end
  async_setup device url started c =
      if connect_within 1 device.connects
      then setup_end url started (log_in device device.login device.registered c)
      else (c, err connection_error)

  unfoldable pub async_shutdown : Coordinator Msg → Coordinator Msg
  async_shutdown c = record (async_stop_video (cancel_keepalive c)) {
    vip_listener = none;
    rtsp_server = none;
    rtsp_url = none;
    client = none;
  }

  unfoldable pub is_connected : Option (Client Msg) → Bool
  is_connected none = false
  is_connected (some client) = client.connected

  -- The reconnect of a refresh: only the second failure in a row is an error.
  unfoldable pub refreshed :
      Coordinator Msg × Result (Unit {0}) → Coordinator Msg × Result (Option DeviceConfig)
  refreshed (c, ok done) = (record c { consecutive_reconnect_failures = 0 }, ok c.config)
  refreshed (c, err e) =
      let failures : ℕ = c.consecutive_reconnect_failures + 1 in
      (
        record c { consecutive_reconnect_failures = failures },
        if ltb failures 2 then ok c.config else err update_failed,
      )

  -- `_async_update_data`
  unfoldable pub update_with :
      Bool
      → Option DeviceConfig
      → Device Msg
      → Coordinator Msg
      → Coordinator Msg × Result (Option DeviceConfig)
  unfolding reconnect refreshed
  update_with true (some config) device c = (c, ok (some config))
  update_with _ _ device c = refreshed (reconnect device c)

  unfoldable pub async_update_data :
      Device Msg → Coordinator Msg → Coordinator Msg × Result (Option DeviceConfig)
  unfolding update_with is_connected
  async_update_data device c = update_with (is_connected c.client) c.config device c
