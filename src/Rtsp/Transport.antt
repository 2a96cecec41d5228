-- ===== src/Rtsp/Transport.antt =====
-- rtsp_server.py: `_parse_setup` and `_parse_client_port`, on the Transport header of a SETUP.
use hass_comelit_intercom_lo.Base.{
  ℕ, ◌+◌, Bool, ◌||◌, ◌==◌, none, some, List, [], ◌∷◌, ◌++◌, Result, ok, err, ◌>>=◌, index_error,
  if◌then◌else◌,
}
use hass_comelit_intercom_lo.Base.Bytes.{Str, decimal}
use hass_comelit_intercom_lo.Base.Text.{
  codes, contains, split_by, split_once, before, strip, int_of,
}
use hass_comelit_intercom_lo.Rtsp.Clients.{TcpClient}
use hass_comelit_intercom_lo.Rtsp.Server.{Server}

abbrev pub interleaved_word : Str
interleaved_word = codes "interleaved"

abbrev pub client_port_word : Str
client_port_word = codes "client_port"

-- part.split("=", 1)[1]
unfoldable pub value_of : Str → Result Str
value_of part = elim (split_once b'=' part) [ none ↦ err index_error | some (a, b) ↦ ok b ]

-- A part that names the interleaved channels sets the channel; the last one counts.
channel_step : ℕ → Str → Result ℕ
unfolding value_of
channel_step channel part =
    if contains interleaved_word part
    then (do value ← value_of part; int_of (before b'-' value))
    else ok channel

unfoldable pub channel_in : ℕ → List Str → Result ℕ
unfolding channel_step
channel_in channel [] = ok channel
channel_in channel (part ∷ parts) = do c ← channel_step channel part; channel_in c parts

-- The first part that names the client's ports.
unfoldable pub client_port_in : List Str → Result ℕ
unfolding value_of
client_port_in [] = ok 0
client_port_in (part ∷ parts) =
    if contains client_port_word part
    then (do value ← value_of part; int_of (before b'-' (strip value)))
    else client_port_in parts

unfoldable pub parse_client_port : Str → Result ℕ
unfolding client_port_in
parse_client_port transport = client_port_in (split_by (λ c. c == b';') transport)

-- f"{n}-{n + 1}"
abbrev pub pair_from : ℕ → Str
pair_from n = decimal n ++ b'-' ∷ decimal (n + 1)

abbrev pub tcp_transport : ℕ → Str
tcp_transport channel = codes "RTP/AVP/TCP;unicast;interleaved=" ++ pair_from channel

abbrev pub udp_transport : ℕ → ℕ → Str
udp_transport port server_port =
    codes "RTP/AVP;unicast;client_port="
    ++ (pair_from port ++ (codes ";server_port=" ++ pair_from server_port))

unfoldable pub set_channel : Bool → ℕ → TcpClient → TcpClient
set_channel is_audio channel c =
    if is_audio then record c { audio_ch = some channel } else record c { video_ch = some channel }

unfoldable pub set_client_port : Bool → ℕ → Str → Server → Server
set_client_port is_audio port host s =
    let s' = record s { udp_host = some host } in
    if is_audio then record s' { udp_audio_port = port } else record s' { udp_video_port = port }

abbrev pub server_port : Bool → Server → ℕ
server_port is_audio s = if is_audio then s.audio_server_port else s.video_server_port

unfoldable pub uses_tcp : Str → Bool
uses_tcp transport = contains (codes "RTP/AVP/TCP") transport || contains interleaved_word transport

-- The Transport header of the answer, the client and the server.
unfoldable pub parse_setup :
    Str → Bool → Str → TcpClient → Server → Result (Str × TcpClient × Server)
unfolding uses_tcp channel_in parse_client_port set_channel set_client_port
parse_setup transport is_audio host c s =
    if uses_tcp transport
    then (do
      channel ← channel_in 0 (split_by (λ d. d == b';') transport)
      ok (codes "Transport: " ++ tcp_transport channel, set_channel is_audio channel c, s))
    else (do
      port ← parse_client_port transport
      ok (
        codes "Transport: " ++ udp_transport port (server_port is_audio s),
        c,
        set_client_port is_audio port host s,
      ))
