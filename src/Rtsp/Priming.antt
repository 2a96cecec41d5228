-- ===== src/Rtsp/Priming.antt =====
-- The priming of a client in rtsp_server.py keeps its writer, and the list of registered clients.
use hass_comelit_intercom_lo.Base.{
  ℕ, ◌+◌, ◌%◌, ◌≡◌, refl, ◌∙◌, Option, none, some, List, [], ◌∷◌, Result, ok, err, ◌>>=◌, arith,
}
use hass_comelit_intercom_lo.Base.Bytes.{Bytes}
use hass_comelit_intercom_lo.Rtsp.Clients.{TcpClient, write}
use hass_comelit_intercom_lo.Rtsp.Server.{Server}
use hass_comelit_intercom_lo.Rtsp.Rtcp.{
  after_write, initial_report, send_initial_sr_to_client, prime_with, prime_on, prime_client,
}

-- Code on a client keeps its writer, and the list of clients.
abbrev pub Primes : TcpClient → Server → Result (TcpClient × Server) → Type 0
Primes c s (err e) = Unit {0}
Primes c s (ok (c', s')) = (c'.writer ≡ c.writer) × (s'.active_clients ≡ s.active_clients)

write-writer :
    (channel : ℕ) (packet : Bytes) (c : TcpClient) {c' : TcpClient}
    → write channel packet c ≡ some c'
    → c'.writer ≡ c.writer
unfolding write
write-writer channel packet c h = ground arith

Primes-bind {ℓ} :
    {A : Type ℓ} (m : Result A) (f : A → Result (TcpClient × Server)) (c : TcpClient) (s : Server)
    → ((a : A) → Primes c s (f a))
    → Primes c s (m >>= f)
Primes-bind (err e) f c s h = tt
Primes-bind (ok a) f c s h = h a

Primes-trans :
    (c c' : TcpClient) (s s' : Server) (r : Result (TcpClient × Server))
    → c'.writer ≡ c.writer
    → s'.active_clients ≡ s.active_clients
    → Primes c' s' r
    → Primes c s r
Primes-trans c c' s s' (err e) h k p = tt
Primes-trans c c' s s' (ok (c2, s2)) h k p = (p.0 ∙ h, p.1 ∙ k)

after_write-Primes :
    (written : Option TcpClient) (c : TcpClient) (s s' : Server)
    (k : TcpClient → Result (TcpClient × Server))
    → s'.active_clients ≡ s.active_clients
    → ((c' : TcpClient) → written ≡ some c' → Primes c s (k c'))
    → Primes c s (after_write written c s' k)
unfolding after_write
after_write-Primes none c s s' k e h = (refl, e)
after_write-Primes (some c') c s s' k e h = h c' refl

prime_with-Primes :
    (channel : ℕ) (nals : List Bytes) (ts : ℕ) (c : TcpClient) (s : Server)
    → Primes c s (prime_with channel nals ts c s)
unfolding prime_with
prime_with-Primes channel [] ts c s = (refl, refl)
prime_with-Primes channel ([] ∷ nals) ts c s = prime_with-Primes channel nals ts c s
prime_with-Primes channel ((b ∷ nal) ∷ nals) ts c s = Primes-bind _ _ c s (λ packet.
    let s' = record s { video_seq = (s.video_seq + 1) % 65536 } in
    after_write-Primes (write channel packet c) c s s' _ refl (λ c' e.
      Primes-trans c c' s s' _ (write-writer channel packet c e) refl
        (prime_with-Primes channel nals ts c' s')))

-- The reports before it go to the client alone.
abbrev KeepsWriter : TcpClient → Result TcpClient → Type 0
KeepsWriter c (err e) = Unit {0}
KeepsWriter c (ok c') = c'.writer ≡ c.writer

initial_report-KeepsWriter :
    (channel : Option ℕ) (count : ℕ) (sr : Result Bytes) (c : TcpClient)
    → KeepsWriter c (initial_report channel count sr c)
unfolding initial_report write
initial_report-KeepsWriter none count sr c = refl
initial_report-KeepsWriter (some ch) count (err e) c = ground arith
initial_report-KeepsWriter (some ch) count (ok packet) c = ground arith

bind-KeepsWriter :
    (m : Result TcpClient) (f : TcpClient → Result TcpClient) (c : TcpClient)
    → KeepsWriter c m
    → ((c' : TcpClient) → KeepsWriter c' (f c'))
    → KeepsWriter c (m >>= f)
bind-KeepsWriter (err e) f c h k = tt
bind-KeepsWriter (ok c') f c h k = trans_writer c c' (f c') h (k c')
  where
    trans_writer :
        (c c' : TcpClient) (r : Result TcpClient)
        → c'.writer ≡ c.writer
        → KeepsWriter c' r
        → KeepsWriter c r
    trans_writer c c' (err e) h k = tt
    trans_writer c c' (ok c2) h k = k ∙ h

prime_on-Primes :
    (channel : Option ℕ) (secs frac : ℕ) (c : TcpClient) (s : Server)
    → Primes c s (prime_on channel secs frac c s)
unfolding prime_on send_initial_sr_to_client
prime_on-Primes none secs frac c s = (refl, refl)
prime_on-Primes (some ch) secs frac c s =
    reported (initial_report c.video_ch _ _ c >>= _) _ c s
      (bind-KeepsWriter _ _ c (initial_report-KeepsWriter c.video_ch _ _ c)
        (λ c1. initial_report-KeepsWriter c1.audio_ch _ _ c1))
      (λ c'. prime_with-Primes ch _ _ c' s)
  where
    reported :
        (m : Result TcpClient) (f : TcpClient → Result (TcpClient × Server)) (c : TcpClient)
        (s : Server)
        → KeepsWriter c m
        → ((c' : TcpClient) → Primes c' s (f c'))
        → Primes c s (m >>= f)
    reported (err e) f c s h k = tt
    reported (ok c') f c s h k = Primes-trans c c' s s (f c') h refl (k c')

pub prime_client-Primes :
    (secs frac : ℕ) (c : TcpClient) (s : Server) → Primes c s (prime_client secs frac c s)
unfolding prime_client
prime_client-Primes secs frac c s = prime_on-Primes c.video_ch secs frac c s
