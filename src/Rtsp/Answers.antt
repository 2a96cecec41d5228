-- ===== src/Rtsp/Answers.antt =====
-- What `_handle_client` of rtsp_server.py answers to a request.
use hass_comelit_intercom_lo.Base.{
  ℕ, ◌≡◌, refl, Bool, true, false, ◌||◌, [], ◌∷◌, ◌++◌, Result, ok, err, Error, arith, Bool-cases,
  inl, inr, if◌then◌else◌, append-nil, length, if-cases,
}
use hass_comelit_intercom_lo.Base.Bytes.{Bytes, Str, decimal}
use hass_comelit_intercom_lo.Base.Dict.{get, same, str_keys}
use hass_comelit_intercom_lo.Base.Text.{codes}
use hass_comelit_intercom_lo.Base.Utf8.{encode_utf8}
use hass_comelit_intercom_lo.Rtsp.Clients.{TcpClient}
use hass_comelit_intercom_lo.Rtsp.Server.{Server}
use hass_comelit_intercom_lo.Rtsp.Session.{play}
use hass_comelit_intercom_lo.Rtsp.Sdp.{build_sdp}
use hass_comelit_intercom_lo.Rtsp.Transport.{parse_setup, set_channel}
use hass_comelit_intercom_lo.Rtsp.Requests.{
  Request, cseq_of, header_or, is_audio_url, reply, status_ok, status_not_allowed, Answer, Next,
  crlf, session_line, range_line, options_line, again, awaits_video, leaves, answer, send_then,
  refuse_then, describe, setup_end, setup, registered_with, play_now, play_request, respond,
}

abbrev pub is_known : Str → Bool
is_known method =
    same method (codes "OPTIONS")
    || same method (codes "DESCRIBE")
    || same method (codes "SETUP")
    || same method (codes "PLAY")
    || same method (codes "TEARDOWN")

abbrev pub status_for : Str → Str
status_for method = if is_known method then status_ok else status_not_allowed

abbrev pub setup_of : Str → Request → TcpClient → Server → Result (Str × TcpClient × Server)
setup_of host r c s =
    parse_setup (header_or (get (codes "transport") r.headers) []) (is_audio_url r.url) host c s

-- What becomes of a request. Nothing is written but one reply.
pub data Answered (host : Str) (r : Request) (c : TcpClient) (s : Server) (a : Answer)
    : Type 0 where
  replied :
      (extra : Str) (body : Bytes)
      → c.is_broken ≡ false
      → a.client.written
        ≡ c.written ++ (encode_utf8 (reply (status_for r.method) (cseq_of r) extra) ++ body) ∷ []
      → Answered host r c s a
  refused :
      c.is_broken ≡ true → a.client.written ≡ c.written → a.next ≡ leaves → Answered host r c s a
  delayed :
      same r.method (codes "PLAY") ≡ true
      → s.ready ≡ false
      → a.client ≡ c
      → a.next ≡ awaits_video (cseq_of r)
      → Answered host r c s a
  unreadable :
      (e : Error)
      → same r.method (codes "SETUP") ≡ true
      → setup_of host r c s ≡ err e
      → a.client ≡ c
      → a.next ≡ leaves
      → Answered host r c s a

-- A SETUP leaves the client's writer as it is.
abbrev pub SameWriter : TcpClient → Str × TcpClient × Server → Type 0
SameWriter c (transport, c', s') =
    (c'.writer ≡ c.writer) × (c'.is_broken ≡ c.is_broken) × (c'.written ≡ c.written)

pub parse_setup-SameWriter :
    (transport host : Str) (is_audio : Bool) (c : TcpClient) (s : Server)
    {r : Str × TcpClient × Server}
    → parse_setup transport is_audio host c s ≡ ok r
    → SameWriter c r
unfolding parse_setup set_channel
parse_setup-SameWriter transport host is_audio c s h = ground arith

-- One write, and then code that writes nothing more to this client.
record Writes (bytes : Bytes) (c : TcpClient) (a : Answer) : Type 0 where
  written : c.is_broken ≡ false → a.client.written ≡ c.written ++ bytes ∷ []
  lost : c.is_broken ≡ true → (a.client.written ≡ c.written) × (a.next ≡ leaves)

answer-Writes :
    (bytes : Bytes) (c : TcpClient) (s : Server) (k : TcpClient → Answer)
    → ((c' : TcpClient) → (k c').client.written ≡ c'.written)
    → Writes bytes c (answer bytes c s k)
unfolding answer
answer-Writes bytes c s k keeps = record {
  written = λ h. ground (arith, keeps (record c { written = c.written ++ bytes ∷ [] }));
  lost = λ h. ground arith;
}

Writes-of_same :
    (bytes : Bytes) (c c' : TcpClient) (a : Answer)
    → c'.is_broken ≡ c.is_broken
    → c'.written ≡ c.written
    → Writes bytes c' a
    → Writes bytes c a
Writes-of_same bytes c c' a same_state same_writes w = record {
  written = λ h. ground (arith, w.written);
  lost = λ h. ground (arith, w.lost);
}

abbrev then_ : Next → Server → TcpClient → Answer
then_ next s c = record { client = c; server = s; next = next }

module _ (host : Str) (r : Request) (c : TcpClient) (s : Server) where
  -- An answer of one write of this reply, and what follows it.
  answered :
      (status extra : Str) (body : Bytes) (a : Answer)
      → status_for r.method ≡ status
      → Writes (encode_utf8 (reply status (cseq_of r) extra) ++ body) c a
      → Answered host r c s a
  answered status extra body a e w = elim (Bool-cases c.is_broken) [
    | inl h ↦ refused h (w.lost h).0 (w.lost h).1
    | inr h ↦ replied extra body h (rw e (w.written h))
  ]

  describe-Answered :
      same r.method (codes "DESCRIBE") ≡ true → Answered host r c s (describe (cseq_of r) c s)
  unfolding describe
  describe-Answered e =
      let sdp = encode_utf8 (build_sdp s) in
      let extra =
        codes "Content-Type: application/sdp\r\nContent-Length: "
        ++ (decimal (length sdp) ++ crlf) in
      answered status_ok extra sdp _ (ground arith) (
        answer-Writes (encode_utf8 (reply status_ok (cseq_of r) extra) ++ sdp) c s (then_ again s)
          (λ c'. refl))

  send-Answered :
      (next : Next) (extra : Str)
      → status_for r.method ≡ status_ok
      → Answered host r c s (send_then next (cseq_of r) extra c s)
  unfolding send_then
  send-Answered next extra e =
      answered status_ok extra [] _ e
        (rw append-nil (answer-Writes _ c s (then_ next s) (λ c'. refl)))

  refuse-Answered :
      (next : Next) (status : Str)
      → status_for r.method ≡ status
      → Answered host r c s (refuse_then next status (cseq_of r) c s)
  unfolding refuse_then
  refuse-Answered next status e =
      answered status [] [] _ e (rw append-nil (answer-Writes _ c s (then_ next s) (λ c'. refl)))

  registered_written :
      (result : Result Server) (c' : TcpClient)
      → (registered_with result c' s).client.written ≡ c'.written
  unfolding registered_with
  registered_written (err e) c' = refl
  registered_written (ok s') c' = refl

  play_now-Answered :
      (secs frac : ℕ)
      → same r.method (codes "PLAY") ≡ true
      → Answered host r c s (play_now secs frac (cseq_of r) c s)
  unfolding play_now
  play_now-Answered secs frac e =
      answered status_ok (session_line ++ range_line) [] _ (ground arith) (
        rw append-nil (
          answer-Writes _ c s (λ c'. registered_with (play secs frac c' s) c' s)
            (λ c'. registered_written (play secs frac c' s) c')))

  play-Answered :
      (secs frac : ℕ)
      → same r.method (codes "PLAY") ≡ true
      → Answered host r c s (play_request secs frac (cseq_of r) c s)
  unfolding play_request
  play-Answered secs frac e =
      if-cases (Answered host r c s) s.ready _ _ (λ h. play_now-Answered secs frac e)
        (λ h. delayed e h refl refl)

  setup-Answered :
      (result : Result (Str × TcpClient × Server))
      → same r.method (codes "SETUP") ≡ true
      → setup_of host r c s ≡ result
      → Answered host r c s (setup_end result (cseq_of r) c s)
  unfolding setup_end send_then
  setup-Answered (err e) m h = unreadable e m h refl refl
  setup-Answered (ok (transport, c', s')) m h =
      let same_writer = parse_setup-SameWriter _ host _ c s h in
      let extra = session_line ++ (transport ++ crlf) in
      answered status_ok extra [] _ (ground arith) (
        rw append-nil (
          Writes-of_same _ c c' _ same_writer.1 same_writer.2 (
            answer-Writes (encode_utf8 (reply status_ok (cseq_of r) extra)) c' s' (then_ again s')
              (λ c''. refl))))

  -- Every request gets exactly one reply, with its CSeq, 200 for the five methods that are known and
  -- 405 for any other; except that nothing is written where the connection is broken, or a SETUP has
  -- a transport that cannot be read, after which the handler leaves its loop, or a PLAY has to wait
  -- for video.
  pub respond_answers : (secs frac : ℕ) → Answered host r c s (respond secs frac host r c s)
  unfolding respond setup
  respond_answers secs frac =
      let P = Answered host r c s in
      if-cases P (same r.method (codes "OPTIONS")) _ _
        (λ m. send-Answered again options_line (ground arith))
        (λ m1. if-cases P (same r.method (codes "DESCRIBE")) _ _ describe-Answered (λ m2.
          if-cases P (same r.method (codes "SETUP")) _ _
            (λ m. setup-Answered (setup_of host r c s) m refl)
            (λ m3. if-cases P (same r.method (codes "PLAY")) _ _ (play-Answered secs frac) (λ m4.
              if-cases P (same r.method (codes "TEARDOWN")) _ _
                (λ m. send-Answered leaves session_line (ground arith))
                (λ m5. refuse-Answered again status_not_allowed (ground arith))))))
