-- ===== src/Rtsp/Registrations.antt =====
-- What the answers of `_handle_client` in rtsp_server.py add to the registered clients.
use hass_comelit_intercom_lo.Base.{
  ℕ, ◌+◌, ◌≤◌, ◌≡◌, refl, ap, Bool, ◌==◌, List, [], ◌∷◌, ◌++◌, Result, ok, err, arith, ◌∙◌, ◌>>=◌,
  if-cases, if◌then◌else◌,
}
use hass_comelit_intercom_lo.Base.Bytes.{Bytes, Str}
use hass_comelit_intercom_lo.Base.Dict.{same}
use hass_comelit_intercom_lo.Base.Text.{codes}
use hass_comelit_intercom_lo.Rtsp.Answers.{parse_setup-SameWriter, setup_of}
use hass_comelit_intercom_lo.Rtsp.Clients.{TcpClient}
use hass_comelit_intercom_lo.Rtsp.Server.{Server}
use hass_comelit_intercom_lo.Rtsp.Rtcp.{prime_client}
use hass_comelit_intercom_lo.Rtsp.Priming.{Primes, prime_client-Primes}
use hass_comelit_intercom_lo.Rtsp.Session.{play}
use hass_comelit_intercom_lo.Rtsp.Transport.{parse_setup, set_client_port}
use hass_comelit_intercom_lo.Rtsp.Requests.{
  Request, cseq_of, Answer, Next, again, awaits_video, streams, leaves, answer, send_then,
  refuse_then, describe, setup_end, setup, registered_with, play_now, play_request, respond,
}
use hass_comelit_intercom_lo.Rtsp.Handler.{remove_client}

-- How often a connection is registered.
unfoldable pub registrations : ℕ → List TcpClient → ℕ
registrations writer [] = 0
registrations writer (c ∷ cs) = (if c.writer == writer then 1 else 0) + registrations writer cs

pub registrations-append :
    (w : ℕ) (cs ds : List TcpClient)
    → registrations w (cs ++ ds) ≡ registrations w cs + registrations w ds
unfolding registrations
registrations-append w [] ds = omega arith
registrations-append w (c ∷ cs) ds = omega (arith, registrations-append w cs ds)

pub registrations-remove_client :
    (w : ℕ) (cs : List TcpClient)
    → registrations w cs ≤ 1
    → registrations w (remove_client w cs) ≡ 0
unfolding registrations remove_client
registrations-remove_client w [] h = refl
registrations-remove_client w (c ∷ cs) h = ground (arith, registrations-remove_client w cs)

-- What an answer adds to the registrations.
abbrev pub adds : Next → ℕ
adds again = 0
adds (awaits_video cseq) = 0
adds streams = 1
adds leaves = 0

pub record Fits (c : TcpClient) (s : Server) (a : Answer) : Type 0 where
  pub same_writer : a.client.writer ≡ c.writer
  pub added :
      registrations c.writer a.server.active_clients
      ≤ registrations c.writer s.active_clients + adds a.next

pub answer-Fits :
    (bytes : Bytes) (c : TcpClient) (s : Server) (k : TcpClient → Answer)
    → ((c' : TcpClient) → Fits c' s (k c'))
    → Fits c s (answer bytes c s k)
unfolding answer
answer-Fits bytes c s k keeps =
    let f = keeps (record c { written = c.written ++ bytes ∷ [] }) in
    if-cases (Fits c s) c.is_broken _ _ (λ h. record { same_writer = refl; added = omega arith })
      (λ h. record { same_writer = f.same_writer; added = f.added })

added_last :
    (w : ℕ) (cs : List TcpClient) (c : TcpClient)
    → registrations w (cs ++ c ∷ []) ≤ registrations w cs + 1
unfolding registrations
added_last w cs c = ground (arith, registrations-append w cs (c ∷ []))

registered_with-Fits :
    (r : Result (TcpClient × Server)) (c : TcpClient) (s : Server)
    → Primes c s r
    → Fits c s (
        registered_with
          (r >>= λ (c', s'). ok (record s' { active_clients = s.active_clients ++ c' ∷ [] }))
          c
          s)
unfolding registered_with
registered_with-Fits (err e) c s p = record { same_writer = refl; added = omega arith }
registered_with-Fits (ok (c', s')) c s p = record {
  same_writer = refl;
  added = added_last c.writer s.active_clients c';
}

pub play_now-Fits :
    (secs frac : ℕ) (cseq : Str) (c : TcpClient) (s : Server)
    → Fits c s (play_now secs frac cseq c s)
unfolding play_now play
play_now-Fits secs frac cseq c s = answer-Fits _ c s _ (λ c'.
    registered_with-Fits (prime_client secs frac c' s) c' s (prime_client-Primes secs frac c' s))

pub then-Fits :
    (c : TcpClient) (s : Server) (next : Next)
    → Fits c s (record { client = c; server = s; next = next })
then-Fits c s next = record { same_writer = refl; added = omega arith }

parse_setup-same_clients :
    (transport host : Str) (is_audio : Bool) (c : TcpClient) (s : Server)
    {r : Str × TcpClient × Server}
    → parse_setup transport is_audio host c s ≡ ok r
    → r.2.active_clients ≡ s.active_clients
unfolding parse_setup set_client_port
parse_setup-same_clients transport host is_audio c s h = ground arith

Fits-of_same :
    (c c' : TcpClient) (s s' : Server) (a : Answer)
    → c'.writer ≡ c.writer
    → s'.active_clients ≡ s.active_clients
    → Fits c' s' a
    → Fits c s a
Fits-of_same c c' s s' a writer clients f = record {
  same_writer = f.same_writer ∙ writer;
  added = omega (
    arith,
    f.added,
    ap (λ w. registrations w a.server.active_clients) writer,
    ap (λ w. registrations w s'.active_clients) writer,
    ap (registrations c.writer) clients,
  );
}

setup-Fits : (host : Str) (r : Request) (c : TcpClient) (s : Server) → Fits c s (setup host r c s)
unfolding setup setup_end send_then
setup-Fits host r c s = by_result (setup_of host r c s) refl
  where
    by_result :
        (result : Result (Str × TcpClient × Server))
        → setup_of host r c s ≡ result
        → Fits c s (setup_end result (cseq_of r) c s)
    by_result (err e) h = then-Fits c s leaves
    by_result (ok (transport, c', s')) h =
        let writer = (parse_setup-SameWriter _ host _ c s h).0 in
        let clients = parse_setup-same_clients _ host _ c s h in
        Fits-of_same c c' s s' _ writer clients (
          answer-Fits _ c' s' (λ c''. record { client = c''; server = s'; next = again })
            (λ c''. then-Fits c'' s' again))

pub respond-Fits :
    (secs frac : ℕ) (host : Str) (r : Request) (c : TcpClient) (s : Server)
    → Fits c s (respond secs frac host r c s)
unfolding respond send_then refuse_then describe play_request
respond-Fits secs frac host r c s =
    let F = Fits c s in
    let written = λ (bytes : Bytes) (next : Next).
      answer-Fits bytes c s (λ c'. record { client = c'; server = s; next = next })
        (λ c'. then-Fits c' s next) in
    if-cases F (same r.method (codes "OPTIONS")) _ _ (λ m. written _ again)
      (λ m1.
        if-cases F (same r.method (codes "DESCRIBE")) _ _ (λ m. written _ again)
          (λ m2.
            if-cases F (same r.method (codes "SETUP")) _ _ (λ m. setup-Fits host r c s)
              (λ m3.
                if-cases F (same r.method (codes "PLAY")) _ _
                  (λ m.
                    if-cases F s.ready _ _ (λ h. play_now-Fits secs frac (cseq_of r) c s)
                      (λ h. then-Fits c s (awaits_video (cseq_of r))))
                  (λ m4.
                    if-cases F (same r.method (codes "TEARDOWN")) _ _ (λ m. written _ leaves)
                      (λ m5. written _ again)))))
