-- ===== src/Rtsp/Rtcp.antt =====
-- rtsp_server.py: `_build_rtcp_sr`, the sender reports, and the parameter sets that a new client is
-- sent before anything else. The clock is an argument: NTP seconds and fraction, as `_ntp_now`
-- computes them.
use hass_comelit_intercom_lo.Base.{
  ℕ, ◌+◌, ◌-◌, ◌/◌, ◌%◌, true, false, Option, none, some, List, [], ◌∷◌, ◌++◌, Result, ok, ◌>>=◌,
  ltb, if◌then◌else◌, length, replicate,
}
use hass_comelit_intercom_lo.Base.Bytes.{Bytes, pack_byte, pack_be16, pack_be32}
use hass_comelit_intercom_lo.Protocol.Rtp.{build_rtp}
use hass_comelit_intercom_lo.Rtsp.Clients.{TcpClient, write}
use hass_comelit_intercom_lo.Rtsp.Server.{Server, video_ssrc, audio_ssrc, broadcast_rtcp}
use hass_comelit_intercom_lo.Rtsp.Video.{u32}

-- b"comelit@local"
abbrev pub cname : Bytes
cname =
    b'c' ∷ b'o' ∷ b'm' ∷ b'e' ∷ b'l' ∷ b'i' ∷ b't' ∷ b'@' ∷ b'l' ∷ b'o' ∷ b'c' ∷ b'a' ∷ b'l' ∷ []

-- (-n) & 3
abbrev pub padding : ℕ → ℕ
padding n = (4 - n % 4) % 4

sender_report : ℕ → ℕ → ℕ → ℕ → ℕ → ℕ → Result Bytes
sender_report ssrc ntp_secs ntp_frac rtp_ts pkt_count octet_count = do
  len ← pack_be16 6
  source ← pack_be32 (ssrc % u32)
  secs ← pack_be32 (ntp_secs % u32)
  frac ← pack_be32 (ntp_frac % u32)
  time ← pack_be32 (rtp_ts % u32)
  packets ← pack_be32 (pkt_count % u32)
  octets ← pack_be32 (octet_count % u32)
  ok (0x80 ∷ 200 ∷ len ++ source ++ secs ++ frac ++ time ++ packets ++ octets)

-- The source description: one chunk, padded to 32 bits.
source_description : ℕ → Result Bytes
source_description ssrc = do
  source ← pack_be32 (ssrc % u32)
  size ← pack_byte (length cname)
  let item : Bytes = 1 ∷ size ++ cname
  let text : Bytes = source ++ item ++ 0x00 ∷ []
  let chunk : Bytes = text ++ replicate (padding (length text)) 0x00
  words ← pack_be16 (length chunk / 4)
  ok (0x81 ∷ 202 ∷ words ++ chunk)

unfoldable pub build_rtcp_sr : ℕ → ℕ → ℕ → ℕ → ℕ → ℕ → Result Bytes
unfolding sender_report source_description
build_rtcp_sr ssrc ntp_secs ntp_frac rtp_ts pkt_count octet_count = do
  sr ← sender_report ssrc ntp_secs ntp_frac rtp_ts pkt_count octet_count
  sdes ← source_description ssrc
  ok (sr ++ sdes)

unfoldable pub video_report : ℕ → ℕ → Server → Result Bytes
video_report secs frac s =
    build_rtcp_sr video_ssrc secs frac s.last_video_rtp_ts s.video_pkt_count s.video_octet_count

unfoldable pub audio_report : ℕ → ℕ → Server → Result Bytes
audio_report secs frac s =
    build_rtcp_sr audio_ssrc secs frac s.last_audio_rtp_ts s.audio_pkt_count s.audio_octet_count

-- A round of `_rtcp_sr_loop` that has somebody to send to.
unfoldable pub report : ℕ → ℕ → Server → Result Server
report secs frac s = do
  video_sr ← video_report secs frac s
  s1 ← broadcast_rtcp video_sr true s
  audio_sr ← audio_report secs frac s1
  broadcast_rtcp audio_sr false s1

-- A write to one client, whose exceptions are suppressed.
try_write : ℕ → Bytes → TcpClient → TcpClient
try_write channel packet c = elim (write channel packet c) [ none ↦ c | some c' ↦ c' ]

-- A stream that has sent no packet sends no report.
unfoldable pub initial_report : Option ℕ → ℕ → Result Bytes → TcpClient → Result TcpClient
unfolding try_write
initial_report none count sr c = ok c
initial_report (some ch) count sr c =
    if ltb 0 count then (do packet ← sr; ok (try_write (ch + 1) packet c)) else ok c

unfoldable pub send_initial_sr_to_client : ℕ → ℕ → Server → TcpClient → Result TcpClient
send_initial_sr_to_client secs frac s c = do
  c1 ← initial_report c.video_ch s.video_pkt_count (video_report secs frac s) c
  initial_report c1.audio_ch s.audio_pkt_count (audio_report secs frac s) c1

-- After a write that failed, the client stays as it was, and the loop ends.
unfoldable pub after_write :
    Option TcpClient
    → TcpClient
    → Server
    → (TcpClient → Result (TcpClient × Server))
    → Result (TcpClient × Server)
after_write none c s go_on = ok (c, s)
after_write (some c') c s go_on = go_on c'

-- The loop over the parameter sets: an empty one is passed over, and a write that fails ends it. The
-- sequence number is used up also where the write fails.
unfoldable pub prime_with : ℕ → List Bytes → ℕ → TcpClient → Server → Result (TcpClient × Server)
prime_with channel [] ts c s = ok (c, s)
prime_with channel ([] ∷ nals) ts c s = prime_with channel nals ts c s
prime_with channel ((b ∷ nal) ∷ nals) ts c s = do
  packet ← build_rtp 96 s.video_seq ts video_ssrc (b ∷ nal) false
  let s' = record s { video_seq = (s.video_seq + 1) % 65536 }
  after_write (write channel packet c) c s' (λ c'. prime_with channel nals ts c' s')

unfoldable pub prime_on : Option ℕ → ℕ → ℕ → TcpClient → Server → Result (TcpClient × Server)
prime_on none secs frac c s = ok (c, s)
prime_on (some ch) secs frac c s = do
  c1 ← send_initial_sr_to_client secs frac s c
  prime_with ch (s.latest_sps ∷ s.latest_pps ∷ []) s.video_ts_out c1 s

-- `_prime_client_with_parameter_sets`
unfoldable pub prime_client : ℕ → ℕ → TcpClient → Server → Result (TcpClient × Server)
prime_client secs frac c s = prime_on c.video_ch secs frac c s
