-- ===== src/Rtsp/Session.antt =====
-- rtsp_server.py: what happens between two calls. `reset`, `mark_ready`, `mark_not_ready`,
-- `disconnect_clients` and `stop`, and the PLAY that registers a client.
use hass_comelit_intercom_lo.Base.{
  ℕ, ◌*◌, ◌/◌, ◌%◌, max, true, false, List, [], ◌∷◌, ◌++◌, map, Result, ok, ◌>>=◌,
}
use hass_comelit_intercom_lo.Base.Bytes.{Str, decimal}
use hass_comelit_intercom_lo.Base.Text.{codes}
use hass_comelit_intercom_lo.Rtsp.Clients.{TcpClient}
use hass_comelit_intercom_lo.Rtsp.Server.{Server}
use hass_comelit_intercom_lo.Rtsp.Video.{u32}
use hass_comelit_intercom_lo.Rtsp.Rtcp.{prime_client}

-- Every registered client gets the parameter sets again, in turn.
unfoldable pub prime_all : ℕ → ℕ → List TcpClient → Server → Result (List TcpClient × Server)
prime_all secs frac [] s = ok ([], s)
prime_all secs frac (c ∷ cs) s = do
  (c', s1) ← prime_client secs frac c s
  (cs', s2) ← prime_all secs frac cs s1
  ok (c' ∷ cs', s2)

-- `reset` up to the loop over the clients. The argument `renewal` changes nothing.
unfoldable pub rewind : Server → Server
rewind s = record s {
  nal_queue = [];
  rtp_queue = [];
  audio_queue = [];
  video_ts_out = max s.video_ts_out (s.audio_ts * 90000 / 8000 % u32);
  video_ts_rebase_pending = true;
  video_pkt_count = 0;
  video_octet_count = 0;
  audio_pkt_count = 0;
  audio_octet_count = 0;
}

unfoldable pub reset : ℕ → ℕ → Server → Result Server
reset secs frac s = do
  (clients, s') ← prime_all secs frac s.active_clients (rewind s)
  ok (record s' { active_clients = clients })

unfoldable pub mark_ready : Server → Server
mark_ready s = record s { ready = true }

unfoldable pub mark_not_ready : Server → Server
mark_not_ready s = record s { ready = false }

unfoldable pub disconnect_clients : Server → Server
disconnect_clients s = record s {
  active_clients = [];
  closed = s.closed ++ map (λ c. c.writer) s.active_clients;
}

unfoldable pub rtsp_url : Server → Str
rtsp_url s =
    codes "rtsp://" ++ (s.bind_host ++ (codes ":" ++ (decimal s.rtsp_port ++ codes "/intercom")))

unfoldable pub stop : Server → Server
stop s = record s {
  running = false;
  active_clients = [];
  has_video_sock = false;
  has_audio_sock = false;
  is_listening = false;
}

-- `start`, with the ports that the system gives the two sockets and the server, and its URL.
unfoldable pub start : ℕ → ℕ → ℕ → Server → Str × Server
start video_port audio_port port s =
    let s' = record s {
      has_video_sock = true;
      video_server_port = video_port;
      has_audio_sock = true;
      audio_server_port = audio_port;
      is_listening = true;
      rtsp_port = port;
      running = true;
    } in
    (rtsp_url s', s')

-- `PLAY`, once video is ready: the client is registered, then primed.
unfoldable pub play : ℕ → ℕ → TcpClient → Server → Result Server
play secs frac c s = do
  (c', s') ← prime_client secs frac c s
  ok (record s' { active_clients = s.active_clients ++ c' ∷ [] })
