-- ===== src/Coordinator/Streaming.antt =====
-- coordinator.py: `async_start_video`, before and after its wait for the session's start, with
-- `_auto_restart_video`.
use hass_comelit_intercom_lo.Base.{
  ℕ, Bool, true, false, not, ◌&&◌, Option, none, some, List, Result, ok, err, not_configured,
  already_in_progress, not_connected, video_stopped, reconnect_failed, if◌then◌else◌,
}
use hass_comelit_intercom_lo.Models.{DeviceConfig}
use hass_comelit_intercom_lo.Client.State.{Client}
use hass_comelit_intercom_lo.Rtsp.Server.{Server}
use hass_comelit_intercom_lo.Rtsp.Session.{mark_ready}
use hass_comelit_intercom_lo.VideoCall.Session.{VideoSession, Call}
use hass_comelit_intercom_lo.VideoCall.Session.{init as new_session}
use hass_comelit_intercom_lo.VideoCall.Start.{start}
use hass_comelit_intercom_lo.Coordinator.State.{
  Coordinator, notify_video_state_change, video_is_locked,
}
use hass_comelit_intercom_lo.Coordinator.Listener.{pause_listener}
use hass_comelit_intercom_lo.Coordinator.Stopping.{async_stop_video}
use hass_comelit_intercom_lo.Coordinator.Connection.{Device, reconnect}

-- What `async_start_video` has come to when it waits, or has returned: a session is to be started,
-- the connection is to be renewed first, or the session that is there is returned.
pub data Begun : Type 0 where
  starts await_connection : Begun
  returns : VideoSession → Begun

-- While another start holds the lock.
unfoldable pub begin_duplicate : Option VideoSession → Result Begun
begin_duplicate none = err already_in_progress
begin_duplicate (some session) = ok (returns session)

module _ {Msg : Type 0} where
  -- Behind the checks: the old session is stopped and the listener paused, with the lock held.
  unfoldable pub clear_the_way : Coordinator Msg → Coordinator Msg
  clear_the_way c =
      let stopped = async_stop_video (record c {
        video_stopped_by_user = false;
        video_starting = true;
        video_reconnecting = false;
      }) in
      pause_listener stopped.vip_listener stopped

  -- Behind the reconnect.
  unfoldable pub begin_on : Coordinator Msg × Result (Unit {0}) → Coordinator Msg × Result Begun
  unfolding clear_the_way
  begin_on (c, err e) = (record c { video_reconnecting = false }, err reconnect_failed)
  begin_on (c, ok done) = (clear_the_way c, ok starts)

  -- With the lock, which is held while the connection is renewed.
  unfoldable pub begin_locked :
      Option (Client Msg) → Bool → Coordinator Msg → Coordinator Msg × Result Begun
  unfolding clear_the_way
  begin_locked none by_user c = (c, err not_connected)
  begin_locked (some client) by_user c =
      if c.video_stopped_by_user && not by_user
      then (c, err video_stopped)
      else if client.connected
      then (clear_the_way c, ok starts)
      else (record c { video_reconnecting = true }, ok await_connection)

  unfoldable pub begin_with :
      Option DeviceConfig → Bool → Coordinator Msg → Coordinator Msg × Result Begun
  unfolding begin_locked begin_duplicate
  begin_with none by_user c = (c, err not_configured)
  begin_with (some config) by_user c =
      if video_is_locked c
      then (c, begin_duplicate c.video_session)
      else begin_locked c.client by_user c

  -- `async_start_video` up to `session.start()`, or up to a reconnect.
  unfoldable pub start_video_begin : Bool → Coordinator Msg → Coordinator Msg × Result Begun
  unfolding begin_with
  start_video_begin by_user c = begin_with c.config by_user c

  -- From the reconnect on: what the user has asked for meanwhile is not looked at again.
  unfoldable pub start_video_reconnected :
      Device Msg → Coordinator Msg → Coordinator Msg × Result Begun
  unfolding begin_on
  start_video_reconnected device c = begin_on (reconnect device c)

  -- Behind `session.start()`, with what it has returned or raised: a session that has started is
  -- published, and the lock is given back in any case.
  unfoldable pub start_video_end :
      Result VideoSession → Coordinator Msg → Coordinator Msg × Result VideoSession
  start_video_end (err e) c = (record c { video_starting = false }, err e)
  start_video_end (ok session) c = (
    record (notify_video_state_change (record c {
      video_session = some session;
      video_ready_event = true;
      rtsp_server = (elim c.rtsp_server [ none ↦ none | some server ↦ some (mark_ready server) ]);
    })) { video_starting = false },
    ok session,
  )

  -- `session.start()` on the shared client and server, in one piece. `waits` is what the other tasks
  -- do to the client meanwhile.
  unfoldable pub after_start :
      Call Msg × Result (Unit {0}) → Coordinator Msg → Coordinator Msg × Result VideoSession
  after_start (s, err e) c = start_video_end (err e) (record c {
    client = some s.client;
    rtsp_server = elim c.rtsp_server [ none ↦ none | some server ↦ s.session.rtsp_server ];
  })
  after_start (s, ok done) c = start_video_end (ok s.session) (record c {
    client = some s.client;
    rtsp_server = elim c.rtsp_server [ none ↦ none | some server ↦ s.session.rtsp_server ];
  })

  unfoldable pub run_session :
      List (Client Msg → Client Msg)
      → Bool
      → ℕ
      → ℕ
      → ℕ
      → Result Server
      → Option DeviceConfig
      → Option (Client Msg)
      → Coordinator Msg
      → Coordinator Msg × Result VideoSession
  unfolding after_start start_video_end
  run_session waits auto_timeout now secs frac started (some config) (some client) c =
      after_start
        (start config now secs frac started (record {
          client = client;
          waits = waits;
          session = new_session auto_timeout c.rtsp_server;
        }))
        c
  run_session waits auto_timeout now secs frac started _ _ c = start_video_end (err not_connected) c

  -- `_auto_restart_video` up to the same wait: every exception is only logged.
  unfoldable pub auto_restart_video : Coordinator Msg → Coordinator Msg
  auto_restart_video c = (start_video_begin false c).0
