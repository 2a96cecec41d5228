-- ===== src/Coordinator/Stopping.antt =====
-- coordinator.py: `async_stop_video`, without a pause between its steps.
use hass_comelit_intercom_lo.Base.{Option, none, some, [], false, if◌then◌else◌}
use hass_comelit_intercom_lo.Client.State.{Client}
use hass_comelit_intercom_lo.Rtsp.Server.{Server}
use hass_comelit_intercom_lo.Rtsp.Session.{mark_not_ready, disconnect_clients}
use hass_comelit_intercom_lo.VideoCall.Session.{VideoSession}
use hass_comelit_intercom_lo.VideoCall.Cleanup.{stop}
use hass_comelit_intercom_lo.Coordinator.State.{
  Coordinator, stop_video, call_each, notify_video_state_change, video_is_locked,
}
use hass_comelit_intercom_lo.Coordinator.Listener.{ensure_vip_listener}

-- Where there is a server, PLAY is blocked and its clients are closed.
unfoldable pub block_clients : Option Server → Option Server
block_clients none = none
block_clients (some server) = some (disconnect_clients (mark_not_ready server))

module _ {Msg : Type 0} where
  -- What the stop of a session does to the client it shares.
  unfoldable pub stop_session : VideoSession → Option (Client Msg) → Option (Client Msg)
  stop_session session none = none
  stop_session session (some client) =
      some (stop (record { client = client; waits = []; session = session })).client

  -- The session is taken out first, with the event; then its stop, and what follows in any case.
  unfoldable pub stop_this : Option VideoSession → Coordinator Msg → Coordinator Msg
  unfolding block_clients stop_session
  stop_this none c = c
  stop_this (some session) c =
      let taken =
        call_each stop_video c.on_stop_video
          (record c { video_session = none; video_ready_event = false }) in
      let stopped = record taken {
        client = stop_session session taken.client;
        rtsp_server = block_clients taken.rtsp_server;
      } in
      notify_video_state_change
        (if video_is_locked stopped then stopped else ensure_vip_listener stopped)

  unfoldable pub async_stop_video : Coordinator Msg → Coordinator Msg
  unfolding stop_this
  async_stop_video c = stop_this c.video_session c
