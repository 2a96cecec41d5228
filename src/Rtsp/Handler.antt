-- ===== src/Rtsp/Handler.antt =====
-- rtsp_server.py: `_handle_client` and `_wait_for_teardown`. The handler is a state machine whose
-- phases are its waits: each function goes from one wait to the next, and other tasks change the
-- server in between. The waits inside `writer.drain` are left out.
use hass_comelit_intercom_lo.Base.{
  ℕ, Bool, true, false, ◌==◌, Option, none, some, List, [], ◌∷◌, ◌++◌, if◌then◌else◌,
}
use hass_comelit_intercom_lo.Base.Bytes.{Bytes, Str}
use hass_comelit_intercom_lo.Base.Text.{codes, contains}
use hass_comelit_intercom_lo.Base.Utf8.{decode_utf8}
use hass_comelit_intercom_lo.Rtsp.Clients.{TcpClient}
use hass_comelit_intercom_lo.Rtsp.Server.{Server}
use hass_comelit_intercom_lo.Rtsp.Requests.{
  Request, parse_request, Answer, Next, again, awaits_video, streams, leaves, play_now, refuse_then,
  respond, status_unavailable, crlf,
}

-- What the handler waits for: more of a request, video, the end of the stream, or nothing more.
pub data Phase : Type 0 where
  reading : Bytes → Phase
  awaiting_video : Str → Phase
  streaming : Phase
  closed : Phase

pub record Connection : Type 0 where
  pub client : TcpClient
  pub host : Str
  pub phase : Phase

-- How `reader.read` ends. No bytes are the end of the stream.
pub data Read : Type 0 where
  received : Bytes → Read
  timed_out : Read
  lost : Read

-- `_active_clients.remove(client)`, where a client is told by its writer.
unfoldable pub remove_client : ℕ → List TcpClient → List TcpClient
remove_client writer [] = []
remove_client writer (c ∷ cs) = if c.writer == writer then cs else c ∷ remove_client writer cs

-- The `finally` block: whether the client is registered, and the connection is closed.
unfoldable pub finish : Bool → Connection → Server → Connection × Server
unfolding remove_client
finish registered k s = (
  record k { phase = closed },
  record s {
    active_clients =
        (if registered then remove_client k.client.writer s.active_clients else s.active_clients);
    closed = s.closed ++ k.client.writer ∷ [];
  },
)

-- The head of a loop `while self._running`, before its wait.
unfoldable pub while_running : Bool → Phase → Connection → Server → Connection × Server
unfolding finish
while_running registered phase k s =
    if s.running then (record k { phase = phase }, s) else finish registered k s

unfoldable pub opened : TcpClient → Str → Server → Connection × Server
unfolding while_running
opened c host s =
    while_running false (reading []) (record { client = c; host = host; phase = closed }) s

unfoldable pub go_on : Next → Connection → Server → Connection × Server
unfolding while_running
go_on again k s = while_running false (reading []) k s
go_on (awaits_video cseq) k s = (record k { phase = awaiting_video cseq }, s)
go_on streams k s = while_running true streaming k s
go_on leaves k s = finish false k s

unfoldable pub after : Connection → Answer → Connection × Server
unfolding go_on
after k a = go_on a.next (record k { client = a.client }) a.server

unfoldable pub on_request : ℕ → ℕ → Option Request → Connection → Server → Connection × Server
unfolding after finish
on_request secs frac none k s = finish false k s
on_request secs frac (some r) k s = after k (respond secs frac k.host r k.client s)

-- A request is taken as whole once it has an empty line anywhere; what follows it is part of it.
unfoldable pub on_bytes : ℕ → ℕ → Bytes → Connection → Server → Connection × Server
unfolding on_request
on_bytes secs frac raw k s =
    if contains (crlf ++ crlf) raw
    then on_request secs frac (parse_request (decode_utf8 raw)) k s
    else (record k { phase = reading raw }, s)

-- A round of `_wait_for_teardown`.
unfoldable pub on_stream : Bytes → Connection → Server → Connection × Server
unfolding while_running
on_stream [] k s = finish true k s
on_stream (b ∷ bytes) k s =
    if contains (codes "TEARDOWN") (b ∷ bytes)
    then finish true k s
    else while_running true streaming k s

-- A read ends, in this phase. In the other phases nothing is read.
unfoldable pub on_read_in : ℕ → ℕ → Phase → Read → Connection → Server → Connection × Server
unfolding on_bytes on_stream
on_read_in secs frac (reading raw) (received []) k s = finish false k s
on_read_in secs frac (reading raw) (received (b ∷ bytes)) k s =
    on_bytes secs frac (raw ++ b ∷ bytes) k s
on_read_in secs frac (reading raw) timed_out k s = finish false k s
on_read_in secs frac (reading raw) lost k s = finish false k s
on_read_in secs frac streaming (received bytes) k s = on_stream bytes k s
on_read_in secs frac streaming timed_out k s = while_running true streaming k s
on_read_in secs frac streaming lost k s = finish true k s
on_read_in secs frac (awaiting_video cseq) how k s = (k, s)
on_read_in secs frac closed how k s = (k, s)

unfoldable pub on_read : ℕ → ℕ → Read → Connection → Server → Connection × Server
unfolding on_read_in
on_read secs frac how k s = on_read_in secs frac k.phase how k s

-- The wait for video ends, as the ready event is set or after ten seconds.
unfoldable pub on_video_in : ℕ → ℕ → Phase → Bool → Connection → Server → Connection × Server
unfolding after
on_video_in secs frac (awaiting_video cseq) true k s = after k (play_now secs frac cseq k.client s)
on_video_in secs frac (awaiting_video cseq) false k s =
    after k (refuse_then leaves status_unavailable cseq k.client s)
on_video_in secs frac phase is_ready k s = (k, s)

unfoldable pub on_video : ℕ → ℕ → Bool → Connection → Server → Connection × Server
unfolding on_video_in
on_video secs frac is_ready k s = on_video_in secs frac k.phase is_ready k s
