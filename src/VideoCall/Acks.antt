-- ===== src/VideoCall/Acks.antt =====
-- video_call.py: which acknowledgements `_run_codec_exchange` and `_ack_device_rtpc_link` send for
-- the responses that are queued.
use hass_comelit_intercom_lo.Base.{
  ℕ, zero, suc, ◌+◌, ◌*◌, ◌≤◌, ◌<◌, ◌≡◌, refl, sym, ◌∙◌, subst, true, false, Option, List, [], ◌∷◌,
  ◌++◌, map, append-nil, append_assoc, Result, ok, arith, All,
}
use hass_comelit_intercom_lo.Base.Bytes.{Bytes, Str}
use hass_comelit_intercom_lo.Client.State.{Channel}
use hass_comelit_intercom_lo.Client.Sends.{packet_on, with_sent}
use hass_comelit_intercom_lo.VideoCall.Session.{Call, Act, return, with_client, read, bind_of_ok}
use hass_comelit_intercom_lo.VideoCall.Exchange.{
  Round, give_up, skip, ack, response_of, do_round, exchange, send_call_ack,
}
use hass_comelit_intercom_lo.VideoCall.Quiet.{
  IsQuiet, Encodes, first_of, rest_of, read-IsQuiet, send_call_ack-IsQuiet, IsQuiet-with_sent,
}

-- The counters of the acknowledgements, as the rounds decide them.
abbrev pub replies_of : Round → (ℕ → List ℕ) → ℕ → List ℕ
replies_of give_up next counter = []
replies_of skip next counter = next counter
replies_of (ack incr true) next counter = (counter + incr) ∷ []
replies_of (ack incr false) next counter = (counter + incr) ∷ next (counter + incr)

abbrev pub replies : (Option (ℕ × ℕ) → Round) → ℕ → List Bytes → ℕ → List ℕ
replies round zero responses counter = []
replies round (suc n) responses counter =
    replies_of (round (response_of (first_of responses))) (replies round n (rest_of responses))
      counter

-- The counter behind the last acknowledgement.
abbrev pub last_of : ℕ → List ℕ → ℕ
last_of counter [] = counter
last_of counter (k ∷ ks) = last_of k ks

abbrev pub Below : ℕ → Type 0
Below k = k < 4294967296

-- How far a round moves the counter.
abbrev pub increment_of : Round → ℕ
increment_of give_up = 0
increment_of skip = 0
increment_of (ack incr last) = incr

replies_of-Below :
    (n : ℕ) (r : Round) (next : ℕ → List ℕ) (counter : ℕ)
    → increment_of r ≤ 0x01010000
    → counter + suc n * 0x01010000 < 4294967296
    → ((k : ℕ) → k + n * 0x01010000 < 4294967296 → All Below (next k))
    → All Below (replies_of r next counter)
replies_of-Below n give_up next counter small h ih = tt
replies_of-Below n skip next counter small h ih = ih counter (omega (arith, h))
replies_of-Below n (ack incr true) next counter small h ih = (omega (arith, h, small), tt)
replies_of-Below n (ack incr false) next counter small h ih =
    (omega (arith, h, small), ih (counter + incr) (omega (arith, h, small)))

-- The counters of n rounds stay below what n of the largest increments reach.
pub replies-Below :
    (round : Option (ℕ × ℕ) → Round)
    → ((m : Option (ℕ × ℕ)) → increment_of (round m) ≤ 0x01010000)
    → (n : ℕ) (responses : List Bytes) (counter : ℕ) → counter + n * 0x01010000 < 4294967296
    → All Below (replies round n responses counter)
replies-Below round small zero responses counter h = tt
replies-Below round small (suc n) responses counter h =
    replies_of-Below n (round (response_of (first_of responses)))
      (replies round n (rest_of responses)) counter (small (response_of (first_of responses))) h
      (λ k lt. replies-Below round small n (rest_of responses) k lt)

module _ {Msg : Type 0} (ch : Channel) (our_addr entrance_addr : Str) (body : ℕ → Bytes) where
  -- The result, and the packets of these acknowledgements on the wire, and nothing else.
  abbrev pub Acked : Call Msg → Call Msg × Result ℕ → ℕ → List ℕ → Type 0
  Acked s r counter acks =
      (r.1 ≡ ok (last_of counter acks))
      × (r.0.client.sent ≡ s.client.sent ++ map (λ k. packet_on ch (body k)) acks)
      × (r.0.session ≡ s.session)
      × ((responses : List Bytes) × IsQuiet ch responses r.0)

  -- The acknowledgements of a state that only reads have led to are those of the first state.
  Acked-after :
      (s s' : Call Msg) (r : Call Msg × Result ℕ) (counter : ℕ) (acks : List ℕ)
      → s'.client.sent ≡ s.client.sent
      → s'.session ≡ s.session
      → Acked s' r counter acks
      → Acked s r counter acks
  Acked-after s s' r counter acks sent kept h = (h.0, rw (← sent) h.1, h.2 ∙ kept, h.3)

  -- One more acknowledgement in front.
  Acked-cons :
      (s : Call Msg) (r : Call Msg × Result ℕ) (counter k : ℕ) (acks : List ℕ)
      → Acked (with_client s (with_sent s.client (packet_on ch (body k) ∷ []))) r k acks
      → Acked s r counter (k ∷ acks)
  Acked-cons s r counter k acks h = (
    h.0,
    h.1
        ∙ append_assoc s.client.sent (packet_on ch (body k) ∷ [])
            (map (λ k. packet_on ch (body k)) acks),
    h.2,
    h.3,
  )

  exchange_step :
      (round : Option (ℕ × ℕ) → Round) (n : ℕ) (responses : List Bytes) (counter : ℕ)
      (s s' : Call Msg)
      → read ch.name s ≡ (s', ok (first_of responses))
      → exchange ch our_addr entrance_addr round (suc n) counter s
        ≡ do_round ch our_addr entrance_addr
            (round (response_of (first_of responses)))
            (exchange ch our_addr entrance_addr round n)
            counter
            s'
  unfolding exchange
  exchange_step round n responses counter s s' e =
      bind_of_ok (read ch.name)
        (λ resp.
          do_round ch our_addr entrance_addr (round (response_of resp))
            (exchange ch our_addr entrance_addr round n) counter)
        s s' (first_of responses) e

  do_round-IsQuiet :
      (round : Round) (next : ℕ → Act Msg ℕ) (acks : ℕ → List ℕ) (responses : List Bytes)
      (counter : ℕ) (s : Call Msg)
      → IsQuiet ch responses s
      → Encodes our_addr entrance_addr body
      → ((k : ℕ) (s' : Call Msg)
          → IsQuiet ch responses s'
          → All Below (acks k)
          → Acked s' (next k s') k (acks k))
      → All Below (replies_of round acks counter)
      → Acked s
          (do_round ch our_addr entrance_addr round next counter s)
          counter
          (replies_of round acks counter)
  unfolding do_round
  do_round-IsQuiet give_up next acks responses counter s h enc ih below =
      (refl, sym (append-nil s.client.sent), refl, (responses, h))
  do_round-IsQuiet skip next acks responses counter s h enc ih below = ih counter s h below
  do_round-IsQuiet (ack incr true) next acks responses counter s h enc ih below =
      let s' = with_client s (with_sent s.client (packet_on ch (body (counter + incr)) ∷ [])) in
      let e =
        send_call_ack-IsQuiet ch our_addr entrance_addr body (counter + incr) s h.sends enc
          below.0 in
      subst (λ r. Acked s r counter ((counter + incr) ∷ []))
        (sym (
          bind_of_ok (send_call_ack ch our_addr entrance_addr (counter + incr))
            (λ a. return (counter + incr)) s s' tt e))
        (refl, refl, refl, (responses, IsQuiet-with_sent ch responses _ s h))
  do_round-IsQuiet (ack incr false) next acks responses counter s h enc ih below =
      let s' = with_client s (with_sent s.client (packet_on ch (body (counter + incr)) ∷ [])) in
      let e =
        send_call_ack-IsQuiet ch our_addr entrance_addr body (counter + incr) s h.sends enc
          below.0 in
      subst (λ r. Acked s r counter ((counter + incr) ∷ acks (counter + incr)))
        (sym (
          bind_of_ok (send_call_ack ch our_addr entrance_addr (counter + incr))
            (λ a. next (counter + incr)) s s' tt e))
        (Acked-cons s _ counter (counter + incr) _
          (ih (counter + incr) s' (IsQuiet-with_sent ch responses _ s h) below.1))

  pub exchange-IsQuiet :
      (round : Option (ℕ × ℕ) → Round) (n : ℕ) (responses : List Bytes) (counter : ℕ) (s : Call Msg)
      → IsQuiet ch responses s
      → Encodes our_addr entrance_addr body
      → All Below (replies round n responses counter)
      → Acked s
          (exchange ch our_addr entrance_addr round n counter s)
          counter
          (replies round n responses counter)
  unfolding exchange
  exchange-IsQuiet round zero responses counter s h enc below =
      (refl, sym (append-nil s.client.sent), refl, (responses, h))
  exchange-IsQuiet round (suc n) responses counter s h enc below =
      let (s', e, h', sent, kept) = read-IsQuiet ch responses s h in
      rw (exchange_step round n responses counter s s' e) (
        Acked-after s s' _ counter _ sent kept (
          do_round-IsQuiet (round (response_of (first_of responses)))
            (exchange ch our_addr entrance_addr round n) (replies round n (rest_of responses))
            (rest_of responses) counter s' h' enc
            (λ k t q b. exchange-IsQuiet round n (rest_of responses) k t q enc b) below))
