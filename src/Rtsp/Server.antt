-- ===== src/Rtsp/Server.antt =====
-- rtsp_server.py: the state of `LocalRtspServer`, and the broadcast of one packet.
use hass_comelit_intercom_lo.Base.{
  ℕ, ◌+◌, Bool, false, ◌&&◌, not, ◌==◌, Option, none, some, List, [], ◌∷◌, ◌++◌, Result, ok, err,
  ◌>>=◌, overflow_error, leb, if◌then◌else◌,
}
use hass_comelit_intercom_lo.Base.Bytes.{Bytes, Str}
use hass_comelit_intercom_lo.Base.Text.{codes}
use hass_comelit_intercom_lo.Rtsp.Clients.{TcpClient, deliver_all, dead_writers}

abbrev pub default_sps : Bytes
default_sps = 0x67 ∷ 0x42 ∷ 0x00 ∷ 0x1f ∷ 0xe9 ∷ 0x02 ∷ 0x83 ∷ 0xf4 ∷ 0x02 ∷ 0xc4 ∷ 0x08 ∷ 0x4a ∷ []

abbrev pub default_pps : Bytes
default_pps = 0x68 ∷ 0xce ∷ 0x38 ∷ 0x80 ∷ []

abbrev pub session_id : Str
session_id = codes "87654321"

abbrev pub video_ssrc : ℕ
video_ssrc = 0xC0DE1234

abbrev pub audio_ssrc : ℕ
audio_ssrc = 0xA0D10001

pub record Server : Type 0 where
  pub bind_host : Str
  pub rtsp_port : ℕ
  -- `_server` is set
  pub is_listening : Bool
  pub nal_queue : List (ℕ × Bytes)
  pub audio_queue : List Bytes
  pub rtp_queue : List Bytes
  pub has_video_sock : Bool
  pub has_audio_sock : Bool
  pub video_server_port : ℕ
  pub audio_server_port : ℕ
  pub udp_host : Option Str
  pub udp_video_port : ℕ
  pub udp_audio_port : ℕ
  -- the datagrams that were sent, each with its port
  pub udp_sent : List (ℕ × Bytes)
  pub active_clients : List TcpClient
  -- the writers that were closed
  pub closed : List ℕ
  pub latest_sps : Bytes
  pub latest_pps : Bytes
  pub video_seq : ℕ
  pub audio_seq : ℕ
  pub audio_ts : ℕ
  pub video_ts_out : ℕ
  pub video_ts_offset : ℕ
  pub last_device_ts : Option ℕ
  pub video_ts_rebase_pending : Bool
  pub video_pkt_count : ℕ
  pub video_octet_count : ℕ
  pub audio_pkt_count : ℕ
  pub audio_octet_count : ℕ
  pub last_video_rtp_ts : ℕ
  pub last_audio_rtp_ts : ℕ
  pub running : Bool
  pub ready : Bool

unfoldable pub init : Server
init = record {
  bind_host = codes "127.0.0.1";
  rtsp_port = 0;
  is_listening = false;
  nal_queue = [];
  audio_queue = [];
  rtp_queue = [];
  has_video_sock = false;
  has_audio_sock = false;
  video_server_port = 0;
  audio_server_port = 0;
  udp_host = none;
  udp_video_port = 0;
  udp_audio_port = 0;
  udp_sent = [];
  active_clients = [];
  closed = [];
  latest_sps = default_sps;
  latest_pps = default_pps;
  video_seq = 0;
  audio_seq = 0;
  audio_ts = 0;
  video_ts_out = 0;
  video_ts_offset = 0;
  last_device_ts = none;
  video_ts_rebase_pending = false;
  video_pkt_count = 0;
  video_octet_count = 0;
  audio_pkt_count = 0;
  audio_octet_count = 0;
  last_video_rtp_ts = 0;
  last_audio_rtp_ts = 0;
  running = false;
  ready = false;
}

-- `sock.sendto` to the single UDP client, where there is one: the datagram and its port. A port of
-- more than 16 bits is an `OverflowError`, which is not suppressed.
unfoldable pub udp_datagrams : Option Str → ℕ → Bool → ℕ → Bytes → Result (List (ℕ × Bytes))
udp_datagrams none port sock offset packet = ok []
udp_datagrams (some host) port sock offset packet =
    if not (port == 0) && sock
    then (if leb (port + offset) 65535
        then ok ((port + offset, packet) ∷ [])
        else err overflow_error)
    else ok []

abbrev pub port_of : Bool → Server → ℕ
port_of is_video s = if is_video then s.udp_video_port else s.udp_audio_port

abbrev pub has_sock : Bool → Server → Bool
has_sock is_video s = if is_video then s.has_video_sock else s.has_audio_sock

-- `_broadcast_rtp` is at offset 0, and `_broadcast_rtcp` at offset 1.
broadcast : ℕ → Bytes → Bool → Server → Result Server
broadcast offset packet is_video s = do
  datagrams ← udp_datagrams s.udp_host (port_of is_video s) (has_sock is_video s) offset packet
  ok (record s {
    active_clients = deliver_all is_video offset packet s.active_clients;
    closed = s.closed ++ dead_writers is_video offset packet s.active_clients;
    udp_sent = s.udp_sent ++ datagrams;
  })

unfoldable pub broadcast_rtp : Bytes → Bool → Server → Result Server
unfolding broadcast
broadcast_rtp packet is_video s = broadcast 0 packet is_video s

unfoldable pub broadcast_rtcp : Bytes → Bool → Server → Result Server
unfolding broadcast
broadcast_rtcp packet is_video s = broadcast 1 packet is_video s
