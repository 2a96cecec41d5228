-- ===== src/Rtsp/Lifetime.antt =====
-- From accept to close: when the connection of `_handle_client` in rtsp_server.py is registered.
use hass_comelit_intercom_lo.Base.{
  ℕ, ◌≤◌, ◌≡◌, refl, ap, Bool, true, false, Option, none, some, List, [], ◌∷◌, ◌++◌, arith, All,
  ◌∙◌, if-cases, if◌then◌else◌,
}
use hass_comelit_intercom_lo.Base.Bytes.{Bytes, Str}
use hass_comelit_intercom_lo.Base.Text.{codes, contains}
use hass_comelit_intercom_lo.Rtsp.Clients.{TcpClient, write, keep, deliver, deliver_on, deliver_all}
use hass_comelit_intercom_lo.Rtsp.Registrations.{
  registrations, registrations-remove_client, adds, Fits, answer-Fits, then-Fits, play_now-Fits,
  respond-Fits,
}
use hass_comelit_intercom_lo.Rtsp.Server.{Server}
use hass_comelit_intercom_lo.Rtsp.Requests.{
  Request, Answer, Next, again, awaits_video, streams, leaves, refuse_then, crlf,
}
use hass_comelit_intercom_lo.Rtsp.Writers.{on_read_in-Keeps, on_video_in-Keeps}
use hass_comelit_intercom_lo.Rtsp.Handler.{
  Phase, reading, awaiting_video, streaming, closed, Connection, Read, received, timed_out, lost,
  finish, while_running, opened, go_on, after, on_request, on_bytes, on_stream, on_read_in, on_read,
  on_video_in, on_video,
}

-- A connection is registered at most once, and only while it streams.
abbrev pub allowed : Phase → ℕ
allowed (reading raw) = 0
allowed (awaiting_video cseq) = 0
allowed streaming = 1
allowed closed = 0

abbrev pub IsTracked : Connection → Server → Type 0
IsTracked k s = registrations k.client.writer s.active_clients ≤ allowed k.phase

abbrev flag : Bool → ℕ
flag registered = if registered then 1 else 0

finish-IsTracked :
    (registered : Bool) (k : Connection) (s : Server)
    → registrations k.client.writer s.active_clients ≤ flag registered
    → IsTracked (finish registered k s).0 (finish registered k s).1
unfolding finish
finish-IsTracked true k s h =
    ground (arith, registrations-remove_client k.client.writer s.active_clients)
finish-IsTracked false k s h = h

abbrev pub Tracks : Connection × Server → Type 0
Tracks (k, s) = IsTracked k s

while_running-IsTracked :
    (registered : Bool) (phase : Phase) (k : Connection) (s : Server)
    → registrations k.client.writer s.active_clients ≤ allowed phase
    → allowed phase ≤ flag registered
    → Tracks (while_running registered phase k s)
unfolding while_running
while_running-IsTracked registered phase k s h f =
    if-cases Tracks s.running _ _ (λ r. h) (λ r. finish-IsTracked registered k s (omega arith))

go_on-IsTracked :
    (next : Next) (k : Connection) (s : Server)
    → registrations k.client.writer s.active_clients ≤ adds next
    → Tracks (go_on next k s)
unfolding go_on
go_on-IsTracked again k s h = while_running-IsTracked false (reading []) k s h (omega arith)
go_on-IsTracked (awaits_video cseq) k s h = h
go_on-IsTracked streams k s h = while_running-IsTracked true streaming k s h (omega arith)
go_on-IsTracked leaves k s h = finish-IsTracked false k s h

after-IsTracked :
    (k : Connection) (s : Server) (a : Answer)
    → Fits k.client s a
    → registrations k.client.writer s.active_clients ≡ 0
    → Tracks (after k a)
unfolding after
after-IsTracked k s a f h =
    go_on-IsTracked a.next (record k { client = a.client }) a.server
      (omega (arith, f.added, ap (λ w. registrations w a.server.active_clients) f.same_writer))

on_request-IsTracked :
    (secs frac : ℕ) (request : Option Request) (k : Connection) (s : Server)
    → registrations k.client.writer s.active_clients ≡ 0
    → Tracks (on_request secs frac request k s)
unfolding on_request
on_request-IsTracked secs frac none k s h = finish-IsTracked false k s (omega arith)
on_request-IsTracked secs frac (some r) k s h =
    after-IsTracked k s _ (respond-Fits secs frac k.host r k.client s) h

on_stream-IsTracked :
    (bytes : Bytes) (k : Connection) (s : Server)
    → registrations k.client.writer s.active_clients ≤ 1
    → Tracks (on_stream bytes k s)
unfolding on_stream
on_stream-IsTracked [] k s h = finish-IsTracked true k s h
on_stream-IsTracked (b ∷ bytes) k s h =
    if-cases Tracks (contains (codes "TEARDOWN") (b ∷ bytes)) _ _ (λ e. finish-IsTracked true k s h)
      (λ e. while_running-IsTracked true streaming k s h (omega arith))

on_bytes-IsTracked :
    (secs frac : ℕ) (raw : Bytes) (k : Connection) (s : Server)
    → registrations k.client.writer s.active_clients ≡ 0
    → Tracks (on_bytes secs frac raw k s)
unfolding on_bytes
on_bytes-IsTracked secs frac raw k s h =
    if-cases Tracks (contains (crlf ++ crlf) raw) _ _ (λ e. on_request-IsTracked secs frac _ k s h)
      (λ e. omega arith)

on_read_in-IsTracked :
    (secs frac : ℕ) (phase : Phase) (how : Read) (k : Connection) (s : Server)
    → k.phase ≡ phase
    → IsTracked k s
    → Tracks (on_read_in secs frac phase how k s)
unfolding on_read_in
on_read_in-IsTracked secs frac (reading raw) (received []) k s e h =
    finish-IsTracked false k s (rw e at h)
on_read_in-IsTracked secs frac (reading raw) (received (b ∷ bytes)) k s e h =
    on_bytes-IsTracked secs frac _ k s (omega (arith, rw e at h))
on_read_in-IsTracked secs frac (reading raw) timed_out k s e h =
    finish-IsTracked false k s (rw e at h)
on_read_in-IsTracked secs frac (reading raw) lost k s e h = finish-IsTracked false k s (rw e at h)
on_read_in-IsTracked secs frac streaming (received bytes) k s e h =
    on_stream-IsTracked bytes k s (rw e at h)
on_read_in-IsTracked secs frac streaming timed_out k s e h =
    while_running-IsTracked true streaming k s (rw e at h) (omega arith)
on_read_in-IsTracked secs frac streaming lost k s e h = finish-IsTracked true k s (rw e at h)
on_read_in-IsTracked secs frac (awaiting_video cseq) how k s e h = h
on_read_in-IsTracked secs frac closed how k s e h = h

on_video_in-IsTracked :
    (secs frac : ℕ) (phase : Phase) (is_ready : Bool) (k : Connection) (s : Server)
    → k.phase ≡ phase
    → IsTracked k s
    → Tracks (on_video_in secs frac phase is_ready k s)
unfolding on_video_in refuse_then
on_video_in-IsTracked secs frac (awaiting_video cseq) true k s e h =
    after-IsTracked k s _ (play_now-Fits secs frac cseq k.client s) (omega (arith, rw e at h))
on_video_in-IsTracked secs frac (awaiting_video cseq) false k s e h =
    after-IsTracked k s _
      (answer-Fits _ k.client s (λ c'. record { client = c'; server = s; next = leaves })
        (λ c'. then-Fits c' s leaves))
      (omega (arith, rw e at h))
on_video_in-IsTracked secs frac (reading raw) is_ready k s e h = h
on_video_in-IsTracked secs frac streaming is_ready k s e h = h
on_video_in-IsTracked secs frac closed is_ready k s e h = h

-- What happens to a connection: its reads, the end of its wait for video, and other tasks.
pub data Event : Type 0 where
  reads : Read → Event
  video : Bool → Event
  elsewhere : (Server → Server) → Event

pub handle : ℕ → ℕ → Event → Connection → Server → Connection × Server
handle secs frac (reads how) k s = on_read secs frac how k s
handle secs frac (video is_ready) k s = on_video secs frac is_ready k s
handle secs frac (elsewhere task) k s = (k, task s)

pub run : ℕ → ℕ → List Event → Connection × Server → Connection × Server
unfolding handle
run secs frac [] state = state
run secs frac (e ∷ events) state = run secs frac events (handle secs frac e state.0 state.1)

-- A task that does not register this writer.
abbrev pub Spares : ℕ → Event → Type 0
Spares w (reads how) = Unit {0}
Spares w (video is_ready) = Unit {0}
Spares w (elsewhere task) =
    (s : Server) → registrations w (task s).active_clients ≤ registrations w s.active_clients

run-IsTracked :
    (secs frac w : ℕ) (events : List Event) (k : Connection) (s : Server)
    → All (Spares w) events
    → k.client.writer ≡ w
    → IsTracked k s
    → Tracks (run secs frac events (k, s))
unfolding run on_read on_video
run-IsTracked secs frac w [] k s h e t = t
run-IsTracked secs frac w (reads how ∷ events) k s h e t =
    run-IsTracked secs frac w events _ _ h.1 (on_read_in-Keeps secs frac k.phase how k s ∙ e)
      (on_read_in-IsTracked secs frac k.phase how k s refl t)
run-IsTracked secs frac w (video is_ready ∷ events) k s h e t =
    run-IsTracked secs frac w events _ _ h.1 (on_video_in-Keeps secs frac k.phase is_ready k s ∙ e)
      (on_video_in-IsTracked secs frac k.phase is_ready k s refl t)
run-IsTracked secs frac w (elsewhere task ∷ events) k s h e t =
    run-IsTracked secs frac w events k (task s) h.1 e (
      omega (
        arith,
        h.0 s,
        ap (λ w. registrations w (task s).active_clients) e,
        ap (λ w. registrations w s.active_clients) e,
      ))

-- From its accept on, and whatever it reads, a connection is registered at most once, and only while
-- its handler streams: not while it waits for video, and not once it is closed. Other tasks may do
-- anything to the server but register this connection's writer.
pub run-opened_tracked :
    (secs frac : ℕ) (events : List Event) (c : TcpClient) (host : Str) (s : Server)
    → registrations c.writer s.active_clients ≡ 0
    → All (Spares c.writer) events
    → Tracks (run secs frac events (opened c host s))
unfolding opened
run-opened_tracked secs frac events c host s h spares =
    let k : Connection = record { client = c; host = host; phase = closed } in
    if-cases (λ state. Tracks (run secs frac events state)) s.running _ _
      (λ e.
        run-IsTracked secs frac c.writer events (record k { phase = reading [] }) s spares refl
          (omega arith))
      (λ e.
        unfold finish in
        run-IsTracked secs frac c.writer events (record k { phase = closed }) _ spares refl
          (omega arith))

-- Broadcasts, and the end of a session, register nobody.
pub deliver_all-spares :
    (w : ℕ) (is_video : Bool) (offset : ℕ) (packet : Bytes) (cs : List TcpClient)
    → registrations w (deliver_all is_video offset packet cs) ≤ registrations w cs
unfolding registrations deliver_all deliver deliver_on keep write
deliver_all-spares w is_video offset packet [] = omega arith
deliver_all-spares w is_video offset packet (c ∷ cs) =
    ground (arith, deliver_all-spares w is_video offset packet cs)
