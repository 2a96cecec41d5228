-- ===== src/Rtsp/Writers.antt =====
-- The handler of a connection in rtsp_server.py keeps the connection's writer.
use hass_comelit_intercom_lo.Base.{
  ℕ, ◌≡◌, refl, ◌∙◌, Bool, true, false, Option, none, some, [], ◌∷◌, ◌++◌, if-cases,
}
use hass_comelit_intercom_lo.Base.Bytes.{Bytes}
use hass_comelit_intercom_lo.Base.Text.{codes, contains}
use hass_comelit_intercom_lo.Rtsp.Registrations.{
  Fits, answer-Fits, then-Fits, play_now-Fits, respond-Fits,
}
use hass_comelit_intercom_lo.Rtsp.Requests.{
  Request, Answer, Next, again, awaits_video, streams, leaves, refuse_then, crlf,
}
use hass_comelit_intercom_lo.Rtsp.Server.{Server}
use hass_comelit_intercom_lo.Rtsp.Handler.{
  Phase, reading, awaiting_video, streaming, closed, Connection, Read, received, timed_out, lost,
  while_running, go_on, after, on_request, on_stream, on_read_in, on_video_in,
}

abbrev pub Keeps : Connection → Connection × Server → Type 0
Keeps k (k', s') = k'.client.writer ≡ k.client.writer

while_running-Keeps :
    (registered : Bool) (phase : Phase) (k : Connection) (s : Server)
    → Keeps k (while_running registered phase k s)
unfolding while_running
while_running-Keeps registered phase k s = if-cases (Keeps k) s.running _ _ (λ r. refl) (λ r. refl)

go_on-Keeps : (next : Next) (k : Connection) (s : Server) → Keeps k (go_on next k s)
unfolding go_on
go_on-Keeps again k s = while_running-Keeps false (reading []) k s
go_on-Keeps (awaits_video cseq) k s = refl
go_on-Keeps streams k s = while_running-Keeps true streaming k s
go_on-Keeps leaves k s = refl

after-Keeps : (k : Connection) (s : Server) (a : Answer) → Fits k.client s a → Keeps k (after k a)
unfolding after
after-Keeps k s a f = go_on-Keeps a.next (record k { client = a.client }) a.server ∙ f.same_writer

on_request-Keeps :
    (secs frac : ℕ) (request : Option Request) (k : Connection) (s : Server)
    → Keeps k (on_request secs frac request k s)
unfolding on_request
on_request-Keeps secs frac none k s = refl
on_request-Keeps secs frac (some r) k s =
    after-Keeps k s _ (respond-Fits secs frac k.host r k.client s)

on_stream-Keeps : (bytes : Bytes) (k : Connection) (s : Server) → Keeps k (on_stream bytes k s)
unfolding on_stream
on_stream-Keeps [] k s = refl
on_stream-Keeps (b ∷ bytes) k s =
    if-cases (Keeps k) (contains (codes "TEARDOWN") (b ∷ bytes)) _ _ (λ e. refl)
      (λ e. while_running-Keeps true streaming k s)

pub on_read_in-Keeps :
    (secs frac : ℕ) (phase : Phase) (how : Read) (k : Connection) (s : Server)
    → Keeps k (on_read_in secs frac phase how k s)
unfolding on_read_in
on_read_in-Keeps secs frac (reading raw) (received []) k s = refl
on_read_in-Keeps secs frac (reading raw) (received (b ∷ bytes)) k s =
    if-cases (Keeps k) (contains (crlf ++ crlf) (raw ++ b ∷ bytes)) _ _
      (λ e. on_request-Keeps secs frac _ k s) (λ e. refl)
on_read_in-Keeps secs frac (reading raw) timed_out k s = refl
on_read_in-Keeps secs frac (reading raw) lost k s = refl
on_read_in-Keeps secs frac streaming (received bytes) k s = on_stream-Keeps bytes k s
on_read_in-Keeps secs frac streaming timed_out k s = while_running-Keeps true streaming k s
on_read_in-Keeps secs frac streaming lost k s = refl
on_read_in-Keeps secs frac (awaiting_video cseq) how k s = refl
on_read_in-Keeps secs frac closed how k s = refl

pub on_video_in-Keeps :
    (secs frac : ℕ) (phase : Phase) (is_ready : Bool) (k : Connection) (s : Server)
    → Keeps k (on_video_in secs frac phase is_ready k s)
unfolding on_video_in refuse_then
on_video_in-Keeps secs frac (awaiting_video cseq) true k s =
    after-Keeps k s _ (play_now-Fits secs frac cseq k.client s)
on_video_in-Keeps secs frac (awaiting_video cseq) false k s = after-Keeps k s _ (
    answer-Fits _ k.client s (λ c'. record { client = c'; server = s; next = leaves })
      (λ c'. then-Fits c' s leaves))
on_video_in-Keeps secs frac (reading raw) is_ready k s = refl
on_video_in-Keeps secs frac streaming is_ready k s = refl
on_video_in-Keeps secs frac closed is_ready k s = refl
