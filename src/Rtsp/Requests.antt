-- ===== src/Rtsp/Requests.antt =====
-- rtsp_server.py: `_handle_client`, how a request is read from its text and what is answered to it.
use hass_comelit_intercom_lo.Base.{
  ℕ, Bool, ◌||◌, Option, none, some, List, [], ◌∷◌, ◌++◌, Result, ok, err, if◌then◌else◌, length,
}
use hass_comelit_intercom_lo.Base.Bytes.{Bytes, Str, decimal}
use hass_comelit_intercom_lo.Base.Dict.{Dict, get, put, same, str_keys}
use hass_comelit_intercom_lo.Base.Text.{
  codes, contains, split_lines, drop_empty, words, split_once, strip, lower,
}
use hass_comelit_intercom_lo.Base.Utf8.{encode_utf8}
use hass_comelit_intercom_lo.Rtsp.Clients.{TcpClient}
use hass_comelit_intercom_lo.Rtsp.Server.{Server, session_id}
use hass_comelit_intercom_lo.Rtsp.Session.{play}
use hass_comelit_intercom_lo.Rtsp.Sdp.{build_sdp}
use hass_comelit_intercom_lo.Rtsp.Transport.{parse_setup}

pub record Request : Type 0 where
  pub method : Str
  pub url : Str
  pub headers : Dict Str Str

-- A line with a colon is a header; a later one of the same name wins.
header_from : Option (Str × Str) → Dict Str Str → Dict Str Str
header_from none headers = headers
header_from (some (k, v)) headers = put (lower (strip k)) (strip v) headers

unfoldable pub headers_of : List Str → Dict Str Str → Dict Str Str
unfolding header_from
headers_of [] headers = headers
headers_of (line ∷ lines) headers = headers_of lines (header_from (split_once b':' line) headers)

unfoldable pub request_from : List Str → List Str → Option Request
unfolding headers_of
request_from (method ∷ url ∷ parts) lines =
    some (record { method = method; url = url; headers = headers_of lines [] })
request_from parts lines = none

-- `none` is a text with no line, or with fewer than two words in its first.
unfoldable pub request_of_lines : List Str → Option Request
unfolding request_from
request_of_lines [] = none
request_of_lines (line ∷ lines) = request_from (words line) lines

unfoldable pub parse_request : Str → Option Request
unfolding request_of_lines
parse_request text = request_of_lines (drop_empty (split_lines text))

abbrev pub header_or : Option Str → Str → Str
header_or none default = default
header_or (some value) default = value

unfoldable pub cseq_of : Request → Str
cseq_of r = header_or (get (codes "cseq") r.headers) (codes "1")

unfoldable pub is_audio_url : Str → Bool
is_audio_url url = contains (codes "/audio") url || contains (codes "track2") url

abbrev pub crlf : Str
crlf = 13 ∷ 10 ∷ []

-- A status line, the CSeq and what follows it.
abbrev pub reply : Str → Str → Str → Str
reply status cseq extra =
    codes "RTSP/1.0 " ++ (status ++ (codes "\r\nCSeq: " ++ (cseq ++ (crlf ++ (extra ++ crlf)))))

abbrev pub status_ok : Str
status_ok = codes "200 OK"

abbrev pub status_unavailable : Str
status_unavailable = codes "503 Service Unavailable"

abbrev pub status_not_allowed : Str
status_not_allowed = codes "405 Method Not Allowed"

abbrev pub session_line : Str
session_line = codes "Session: " ++ (session_id ++ crlf)

abbrev pub range_line : Str
range_line = codes "Range: npt=0.000-\r\n"

-- How the handler goes on: with the next request, waiting for video, streaming, or out of its loop.
pub data Next : Type 0 where
  again : Next
  awaits_video : Str → Next
  streams : Next
  leaves : Next

pub record Answer : Type 0 where
  pub client : TcpClient
  pub server : Server
  pub next : Next

-- `writer.write` of a text and the code behind it, which an exception skips.
unfoldable pub answer : Bytes → TcpClient → Server → (TcpClient → Answer) → Answer
answer bytes c s go_on =
    if c.is_broken
    then record { client = c; server = s; next = leaves }
    else go_on (record c { written = c.written ++ bytes ∷ [] })

-- `_send`, and then this.
unfoldable pub send_then : Next → Str → Str → TcpClient → Server → Answer
unfolding answer
send_then next cseq extra c s =
    answer (encode_utf8 (reply status_ok cseq extra)) c s
      (λ c'. record { client = c'; server = s; next = next })

unfoldable pub refuse_then : Next → Str → Str → TcpClient → Server → Answer
unfolding answer
refuse_then next status cseq c s =
    answer (encode_utf8 (reply status cseq [])) c s
      (λ c'. record { client = c'; server = s; next = next })

unfoldable pub describe : Str → TcpClient → Server → Answer
unfolding answer
describe cseq c s =
    let sdp = encode_utf8 (build_sdp s) in
    let extra =
      codes "Content-Type: application/sdp\r\nContent-Length: " ++ (decimal (length sdp) ++ crlf) in
    answer (encode_utf8 (reply status_ok cseq extra) ++ sdp) c s
      (λ c'. record { client = c'; server = s; next = again })

unfoldable pub setup_end : Result (Str × TcpClient × Server) → Str → TcpClient → Server → Answer
unfolding send_then
setup_end (err e) cseq c s = record { client = c; server = s; next = leaves }
setup_end (ok (transport, c', s')) cseq c s =
    send_then again cseq (session_line ++ (transport ++ crlf)) c' s'

unfoldable pub setup : Str → Request → TcpClient → Server → Answer
unfolding setup_end
setup host r c s =
    let transport = header_or (get (codes "transport") r.headers) [] in
    setup_end (parse_setup transport (is_audio_url r.url) host c s) (cseq_of r) c s

-- The client streams from here on, also where the priming has raised. From here the registered copy
-- has what is written to the client; the handler itself only removes and closes it, by its writer.
unfoldable pub registered_with : Result Server → TcpClient → Server → Answer
registered_with (err e) c s = record { client = c; server = s; next = leaves }
registered_with (ok s') c s = record { client = c; server = s'; next = streams }

-- `PLAY`, once video is ready, at this time of the clock.
unfoldable pub play_now : ℕ → ℕ → Str → TcpClient → Server → Answer
unfolding answer registered_with
play_now secs frac cseq c s =
    answer (encode_utf8 (reply status_ok cseq (session_line ++ range_line))) c s
      (λ c'. registered_with (play secs frac c' s) c' s)

unfoldable pub play_request : ℕ → ℕ → Str → TcpClient → Server → Answer
unfolding play_now
play_request secs frac cseq c s =
    if s.ready
    then play_now secs frac cseq c s
    else record { client = c; server = s; next = awaits_video cseq }

abbrev pub options_line : Str
options_line = codes "Public: OPTIONS, DESCRIBE, SETUP, PLAY, TEARDOWN\r\n"

-- One request, up to the handler's next wait.
unfoldable pub respond : ℕ → ℕ → Str → Request → TcpClient → Server → Answer
unfolding send_then refuse_then describe setup play_request
respond secs frac host r c s =
    if same r.method (codes "OPTIONS")
    then send_then again (cseq_of r) options_line c s
    else if same r.method (codes "DESCRIBE")
    then describe (cseq_of r) c s
    else if same r.method (codes "SETUP")
    then setup host r c s
    else if same r.method (codes "PLAY")
    then play_request secs frac (cseq_of r) c s
    else if same r.method (codes "TEARDOWN")
    then send_then leaves (cseq_of r) session_line c s
    else refuse_then again status_not_allowed (cseq_of r) c s
