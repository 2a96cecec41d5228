-- ===== src/Examples/Streams.antt =====
-- rtsp_server.py and rtp_receiver.py at concrete inputs: requests, connections and the decoder.
use hass_comelit_intercom_lo.Base.{
  some, ◌≡◌, refl, true, false, not, none, List, [], ◌∷◌, ◌++◌, ok, if◌then◌else◌, All,
}
use hass_comelit_intercom_lo.Base.Bytes.{Bytes, Str}
use hass_comelit_intercom_lo.Base.Dict.{same}
use hass_comelit_intercom_lo.Base.Text.{codes, contains}
use hass_comelit_intercom_lo.Receiver.Queues as Queues
use hass_comelit_intercom_lo.Receiver.Queues.{Receiver}
use hass_comelit_intercom_lo.Receiver.Decode as Decode
use hass_comelit_intercom_lo.Receiver.Decode.{
  Outcome, frames, failed, Decoder, decode_rounds, max_consecutive_errors,
}
use hass_comelit_intercom_lo.Receiver.Failures.{fail_in_row, outcomes, IsUnit, decode_rounds_ends}
use hass_comelit_intercom_lo.Rtsp.Clients.{TcpClient, deliver_all}
use hass_comelit_intercom_lo.Rtsp.Server as Servers
use hass_comelit_intercom_lo.Rtsp.Server.{Server}
use hass_comelit_intercom_lo.Rtsp.Transport.{tcp_transport, parse_setup}
use hass_comelit_intercom_lo.Rtsp.Setups.{parse_setup-tcp_transport}
use hass_comelit_intercom_lo.Rtsp.Requests.{Request, respond, crlf}
use hass_comelit_intercom_lo.Rtsp.Answers.{Answered, respond_answers}
use hass_comelit_intercom_lo.Rtsp.Handler.{
  Connection, reading, received, timed_out, opened, on_bytes,
}
use hass_comelit_intercom_lo.Rtsp.Registrations.{registrations}
use hass_comelit_intercom_lo.Rtsp.Lifetime.{
  Event, Spares, reads, video, elsewhere, run, Tracks, deliver_all-spares, run-opened_tracked,
}
use hass_comelit_intercom_lo.Rtsp.Pipelining.{Once, on_bytes-Once}

-- A server that runs, a client that has just connected, and its address.
abbrev server : Server
unfolding Servers.init
server = record Servers.init { running = true }

abbrev client : TcpClient
client = record {
  writer = 3;
  video_ch = none;
  audio_ch = none;
  is_closing = false;
  is_broken = false;
  written = [];
}

abbrev host : Str
host = codes "10.0.0.5"

-- A client asks for interleaved channels 2 and 3.
parse_setup-tcp_transport_example :
    parse_setup (tcp_transport 2) false host client server
    ≡ ok (codes "Transport: " ++ tcp_transport 2, record client { video_ch = some 2 }, server)
parse_setup-tcp_transport_example = parse_setup-tcp_transport 2 false host client server

abbrev play_request : Request
play_request = record {
  method = codes "PLAY";
  url = codes "rtsp://127.0.0.1/intercom";
  headers = (codes "cseq", codes "4") ∷ [];
}

-- A PLAY before any video waits.
respond_answers_example :
    Answered host play_request client server (respond 0 0 host play_request client server)
respond_answers_example = respond_answers host play_request client server 0 0

abbrev play_text : Bytes
play_text = codes "PLAY rtsp://127.0.0.1/intercom RTSP/1.0\r\nCSeq: 4\r\n\r\n"

-- A client plays, video comes, a packet is broadcast, and the client leaves.
abbrev visit : List Event
visit =
    reads (received play_text)
    ∷ video true
    ∷ elsewhere (λ s. record s { active_clients = deliver_all true 0 (7 ∷ []) s.active_clients })
    ∷ reads timed_out
    ∷ reads (received [])
    ∷ []

nobody_registered : registrations 3 server.active_clients ≡ 0
unfolding registrations server
nobody_registered = refl

visit-Spares : All (Spares 3) visit
visit-Spares =
    (tt, (tt, ((λ s. deliver_all-spares 3 true 0 (7 ∷ []) s.active_clients), (tt, (tt, tt)))))

run-opened_tracked_example : Tracks (run 0 0 visit (opened client host server))
run-opened_tracked_example =
    run-opened_tracked 0 0 visit client host server nobody_registered visit-Spares

abbrev describe_text : Bytes
describe_text = codes "DESCRIBE rtsp://127.0.0.1/intercom RTSP/1.0\r\nCSeq: 2\r\n\r\n"

abbrev waiting : Connection
waiting = record { client = client; host = host; phase = reading [] }

describe_whole : contains (crlf ++ crlf) describe_text ≡ true
unfolding contains
describe_whole = refl

-- A DESCRIBE and a PLAY that arrive together.
on_bytes-Once_example : Once waiting (on_bytes 0 0 (describe_text ++ play_text) waiting server)
on_bytes-Once_example = on_bytes-Once 0 0 describe_text play_text waiting server describe_whole

-- Three units, the second of which the decoder refuses.
abbrev receiver : Receiver
unfolding Queues.init
receiver = record (Queues.init 7 8 9) {
  running = true;
  nal_queue = (0, 5 ∷ []) ∷ (1, 6 ∷ []) ∷ (2, 5 ∷ []) ∷ [];
}

abbrev decoder : Decoder
unfolding Decode.init
decoder = Decode.init

decode : List Bytes → Bytes → Outcome
decode given nal = if same nal (6 ∷ []) then failed else frames []

units_whole : All IsUnit receiver.nal_queue
unfolding receiver
units_whole = ((λ e. cc e), ((λ e. cc e), ((λ e. cc e), tt)))

decode_rounds_ends_example :
    (decode_rounds decode 3 receiver decoder).1.decoding
    ≡ not (fail_in_row max_consecutive_errors (outcomes decode [] receiver.nal_queue))
unfolding receiver decoder
decode_rounds_ends_example = decode_rounds_ends decode receiver decoder refl units_whole refl refl
