-- ===== src/Rtsp/Broadcast.antt =====
-- What one broadcast of rtsp_server.py does to the registered clients.
use hass_comelit_intercom_lo.Base.{
  ℕ, ◌+◌, ◌≡◌, refl, Bool, true, false, Option, none, some, List, [], ◌∷◌, ◌++◌, ◌⊎◌, inl, inr,
  Result, ok, err, arith, Error,
}
use hass_comelit_intercom_lo.Base.Bytes.{Bytes}
use hass_comelit_intercom_lo.Rtsp.Clients.{
  TcpClient, interleaved, write, channel_of, deliver_on, deliver, keep, deliver_all, lose,
  dead_writers,
}

-- The frame of the packet could not be written: the connection is closing or broken, or the packet
-- does not fit a frame.
abbrev pub Fails : ℕ → Bytes → TcpClient → Type 0
Fails channel packet c =
    (c.is_closing ≡ true)
    ⊎ ((c.is_broken ≡ true) ⊎ ((e : Error) × (interleaved channel packet ≡ err e)))

-- A broadcast, client by client: the clients before it, the clients after it, and the writers that
-- were closed.
pub data Broadcast (is_video : Bool) (offset : ℕ) (packet : Bytes)
    : List TcpClient → List TcpClient → List ℕ → Type 0 where
  nobody : Broadcast is_video offset packet [] [] []
  -- a client that did not set this medium up is left alone
  passed_over :
      {c : TcpClient} {cs cs' : List TcpClient} {ws : List ℕ}
      → channel_of is_video c ≡ none
      → Broadcast is_video offset packet cs cs' ws
      → Broadcast is_video offset packet (c ∷ cs) (c ∷ cs') ws
  -- an open client gets one frame, on its channel
  written_to :
      {c : TcpClient} {ch : ℕ} {frame : Bytes} {cs cs' : List TcpClient} {ws : List ℕ}
      → channel_of is_video c ≡ some ch
      → c.is_closing ≡ false
      → c.is_broken ≡ false
      → interleaved (ch + offset) packet ≡ ok frame
      → Broadcast is_video offset packet cs cs' ws
      → Broadcast is_video offset packet
          (c ∷ cs)
          ((record c { written = c.written ++ frame ∷ [] }) ∷ cs')
          ws
  -- a client that cannot be written to is removed, and its writer closed
  removed :
      {c : TcpClient} {ch : ℕ} {cs cs' : List TcpClient} {ws : List ℕ}
      → channel_of is_video c ≡ some ch
      → Fails (ch + offset) packet c
      → Broadcast is_video offset packet cs cs' ws
      → Broadcast is_video offset packet (c ∷ cs) cs' (c.writer ∷ ws)

module _ (is_video : Bool) (offset : ℕ) (packet : Bytes) where
  attempt :
      (c : TcpClient) (ch : ℕ) (closing broken : Bool) (r : Result Bytes)
      → c.is_closing ≡ closing
      → c.is_broken ≡ broken
      → interleaved (ch + offset) packet ≡ r
      → ((deliver_on (some ch) offset packet c ≡ none) × Fails (ch + offset) packet c)
        ⊎ ((frame : Bytes) × (c.is_closing ≡ false)
            × (c.is_broken ≡ false)
            × (interleaved (ch + offset) packet ≡ ok frame)
            × (deliver_on (some ch) offset packet c
                ≡ some (record c { written = c.written ++ frame ∷ [] })))
  unfolding deliver_on write
  attempt c ch true broken r p q i = inl (ground (arith, p), inl p)
  attempt c ch false broken (err e) p q i = inl (ground (arith, p, i), inr (inr (e, i)))
  attempt c ch false true (ok frame) p q i = inl (ground (arith, p, q, i), inr (inl q))
  attempt c ch false false (ok frame) p q i = inr (frame, p, q, i, ground (arith, p, q, i))

  Broadcast-cons :
      (c : TcpClient) (cs cs' : List TcpClient) (ws : List ℕ) (ch : Option ℕ)
      → channel_of is_video c ≡ ch
      → Broadcast is_video offset packet cs cs' ws
      → Broadcast is_video offset packet
          (c ∷ cs)
          (keep (deliver_on ch offset packet c) cs')
          (lose (deliver_on ch offset packet c) c.writer ws)
  unfolding keep lose
  Broadcast-cons c cs cs' ws none e others = unfold deliver_on in passed_over e others
  Broadcast-cons c cs cs' ws (some ch) e others = elim (attempt c ch _ _ _ refl refl refl) [
    | inl (gone, why) ↦ rw gone (removed e why others)
    | inr (frame, p, q, i, done) ↦ rw done (written_to e p q i others)
  ]

  -- A broadcast goes through all clients: each that set the medium up gets the packet in exactly one
  -- frame on its channel, or cannot be written to and is removed with its writer closed; the others
  -- are left alone, and the order stays.
  pub deliver_all-Broadcast :
      (cs : List TcpClient)
      → Broadcast is_video offset packet cs
          (deliver_all is_video offset packet cs)
          (dead_writers is_video offset packet cs)
  unfolding deliver_all dead_writers deliver
  deliver_all-Broadcast [] = nobody
  deliver_all-Broadcast (c ∷ cs) = Broadcast-cons c cs _ _ _ refl (deliver_all-Broadcast cs)
