-- ===== src/VideoCall/Counters.antt =====
-- video_call.py: how far the counter of a call moves, whatever the device sends.
use hass_comelit_intercom_lo.Base.{
  ℕ, zero, suc, ◌+◌, ◌*◌, ◌≤◌, ◌≡◌, refl, subst, true, false, Option, ok, arith,
}
use hass_comelit_intercom_lo.Base.Bytes.{Str}
use hass_comelit_intercom_lo.Client.State.{Channel}
use hass_comelit_intercom_lo.VideoCall.Session.{
  Call, Act, lift, wait_for_open, ◌>>=◌, ◌>>◌, return, send_message, read,
}
use hass_comelit_intercom_lo.VideoCall.Exchange.{
  Round, give_up, skip, ack, response_of, codec_round, link_round, do_round, exchange,
  send_call_ack, run_codec_exchange, ack_device_rtpc_link,
}
use hass_comelit_intercom_lo.VideoCall.Acks.{increment_of}
use hass_comelit_intercom_lo.VideoCall.Codec.{codec_round_small, link_round_small}
use hass_comelit_intercom_lo.VideoCall.Logic.{Gives, Gives-bind}
use hass_comelit_intercom_lo.VideoCall.Cleanup.{rtpc_device_reest_name}
use hass_comelit_intercom_lo.VideoCall.Start.{
  split_last, init_sequence, add_placeholder, call_init_messages, reset_server, finish_renewal,
  call_ts, negotiate_codec, link_and_configure, accept_call, reestablish,
}

-- Between two numbers.
abbrev pub Within : ℕ → ℕ → ℕ → Type 0
Within low high k = (low ≤ k) × (k ≤ high)

abbrev Any : {A : Type 0} → A → Type 0
Any a = Unit

module _ {Msg : Type 0} (ch : Channel) (our_addr entrance_addr : Str) where
  return-Gives : {A : Type 0} (P : A → Type 0) (a : A) → P a → Gives {Msg = Msg} P (return a)
  return-Gives P a h s b e = subst P (cc) h

  do_round-Within :
      (n : ℕ) (r : Round) (next : ℕ → Act Msg ℕ) (counter : ℕ)
      → increment_of r ≤ 0x01010000
      → ((k : ℕ) → Gives {Msg = Msg} (Within k (k + n * 0x01010000)) (next k))
      → Gives {Msg = Msg}
          (Within counter (counter + suc n * 0x01010000))
          (do_round ch our_addr entrance_addr r next counter)
  unfolding do_round
  do_round-Within n give_up next counter small ih =
      return-Gives (Within counter (counter + suc n * 0x01010000)) counter
        (omega arith, omega arith)
  do_round-Within n skip next counter small ih =
      λ s k e. let h = ih counter s k e in (h.0, omega (arith, h.1))
  do_round-Within n (ack incr true) next counter small ih =
      Gives-bind Any (Within counter (counter + suc n * 0x01010000))
        (send_call_ack ch our_addr entrance_addr (counter + incr)) (λ a. return (counter + incr))
        (λ s a e. tt)
        (λ a h.
          return-Gives (Within counter (counter + suc n * 0x01010000)) (counter + incr)
            (omega arith, omega (arith, small)))
  do_round-Within n (ack incr false) next counter small ih =
      Gives-bind Any (Within counter (counter + suc n * 0x01010000))
        (send_call_ack ch our_addr entrance_addr (counter + incr)) (λ a. next (counter + incr))
        (λ s a e. tt)
        (λ a h s k e.
          let w = ih (counter + incr) s k e in (omega (arith, w.0), omega (arith, w.1, small)))

  exchange-Within :
      (round : Option (ℕ × ℕ) → Round)
      → ((m : Option (ℕ × ℕ)) → increment_of (round m) ≤ 0x01010000)
      → (n counter : ℕ)
      → Gives {Msg = Msg}
          (Within counter (counter + n * 0x01010000))
          (exchange ch our_addr entrance_addr round n counter)
  unfolding exchange
  exchange-Within round small zero counter =
      return-Gives (Within counter (counter + 0 * 0x01010000)) counter (omega arith, omega arith)
  exchange-Within round small (suc n) counter =
      Gives-bind Any (Within counter (counter + suc n * 0x01010000)) (read ch.name)
        (λ resp.
          do_round ch our_addr entrance_addr (round (response_of resp))
            (exchange ch our_addr entrance_addr round n) counter)
        (λ s a e. tt)
        (λ resp h.
          do_round-Within n (round (response_of resp)) (exchange ch our_addr entrance_addr round n)
            counter (small (response_of resp)) (exchange-Within round small n))

  negotiate_codec-Within :
      (now : ℕ)
      → Gives {Msg = Msg}
          (Within (call_ts now + 0x00010000) (call_ts now + 0x00010000 + 10 * 0x01010000))
          (negotiate_codec ch our_addr entrance_addr now)
  unfolding negotiate_codec run_codec_exchange
  negotiate_codec-Within now =
      let k : ℕ = call_ts now + 0x00010000 in
      Gives-bind Any (Within k (k + 10 * 0x01010000)) (read ch.name) _ (λ s a e. tt)
        λ resp h.
          Gives-bind Any (Within k (k + 10 * 0x01010000)) (send_message ch _) _ (λ s a e. tt)
            λ sent h'. exchange-Within codec_round codec_round_small 10 k

  link_and_configure-Gives :
      (id media counter : ℕ)
      → Gives {Msg = Msg}
          (λ k. k ≡ counter + 0x00010000)
          (link_and_configure ch our_addr entrance_addr id media counter)
  unfolding link_and_configure
  link_and_configure-Gives id media counter =
      Gives-bind Any (λ k. k ≡ counter + 0x00010000) (send_message ch _) _ (λ s a e. tt)
        λ sent h.
          Gives-bind Any (λ k. k ≡ counter + 0x00010000) (send_message ch _) _ (λ s a e. tt)
            λ sent' h'. return-Gives (λ k. k ≡ counter + 0x00010000) (counter + 0x00010000) refl

  accept_call-Within :
      (counter : ℕ)
      → Gives {Msg = Msg}
          (Within (counter + 0x00010000) (counter + 0x00010000 + 5 * 0x01010000))
          (accept_call ch our_addr entrance_addr counter)
  unfolding accept_call ack_device_rtpc_link
  accept_call-Within counter =
      let P = Within (counter + 0x00010000) (counter + 0x00010000 + 5 * 0x01010000) in
      Gives-bind (Within counter (counter + 5 * 0x01010000)) P
        (ack_device_rtpc_link ch our_addr entrance_addr counter) _
        (exchange-Within link_round link_round_small 5 counter)
        λ k w.
          Gives-bind Any P (send_message ch _) _ (λ s a e. tt)
            λ sent h. return-Gives P (k + 0x00010000) (omega (arith, w.0), omega (arith, w.1))

  Gives-behind :
      {A B : Type 0} (Q : B → Type 0) (m : Act Msg A) (f : A → Act Msg B)
      → ((a : A) → Gives {Msg = Msg} Q (f a))
      → Gives {Msg = Msg} Q (m >>= f)
  Gives-behind Q m f k = Gives-bind Any Q m f (λ s a e. tt) (λ a h. k a)

  finish_renewal-Gives :
      (secs frac accepted : ℕ)
      → Gives {Msg = Msg}
          (λ k. k ≡ accepted + 0x00010000)
          (finish_renewal ch our_addr entrance_addr secs frac accepted)
  unfolding finish_renewal
  finish_renewal-Gives secs frac accepted =
      Gives-behind (λ k. k ≡ accepted + 0x00010000) (send_message ch _) _
        λ sent.
          Gives-behind (λ k. k ≡ accepted + 0x00010000) (reset_server secs frac) _
            λ done. return-Gives (λ k. k ≡ accepted + 0x00010000) (accepted + 0x00010000) refl

  -- A renewal that returns gives a counter that starts again from the clock, whatever the old one
  -- was and whatever the device sends: at least the four messages that it sends without being asked,
  -- and at most fifteen acknowledgements more.
  pub reestablish-Within :
      (id media now secs frac counter : ℕ) (s : Call Msg) (renewed : ℕ)
      → (reestablish ch our_addr entrance_addr id media now secs frac counter s).1 ≡ ok renewed
      → Within
          (call_ts now + 4 * 0x00010000)
          (call_ts now + 4 * 0x00010000 + 15 * 0x01010000)
          renewed
  unfolding reestablish
  reestablish-Within id media now secs frac counter =
      let t : ℕ = call_ts now in
      let Q = Within (t + 4 * 0x00010000) (t + 4 * 0x00010000 + 15 * 0x01010000) in
      let accept : ℕ → Act Msg ℕ = λ configured.
        accept_call ch our_addr entrance_addr configured
        >>= finish_renewal ch our_addr entrance_addr secs frac in
      let link : ℕ → Act Msg ℕ = λ exchanged.
        link_and_configure ch our_addr entrance_addr id media exchanged >>= λ configured.
        wait_for_open rtpc_device_reest_name >> accept configured in
      let call : Act Msg ℕ =
        call_init_messages ch our_addr entrance_addr now
        >> (negotiate_codec ch our_addr entrance_addr now >>= link) in
      let init : Str × ℕ → Act Msg ℕ = λ split.
        init_sequence ch split.0 split.1 our_addr now
        >> (add_placeholder rtpc_device_reest_name >> call) in
      Gives-behind Q (lift (split_last our_addr))
        (λ split. send_call_ack ch our_addr entrance_addr (counter + 0x01000000) >> init split)
        λ split.
          Gives-behind Q (send_call_ack ch our_addr entrance_addr (counter + 0x01000000))
            (λ acked. init split)
            λ acked.
              Gives-behind Q (init_sequence ch split.0 split.1 our_addr now)
                (λ inited. add_placeholder rtpc_device_reest_name >> call)
                λ inited.
                  Gives-behind Q (add_placeholder rtpc_device_reest_name) (λ placed. call)
                    λ placed.
                      Gives-behind Q (call_init_messages ch our_addr entrance_addr now)
                        (λ called. negotiate_codec ch our_addr entrance_addr now >>= link)
                        λ called.
                          Gives-bind _ Q (negotiate_codec ch our_addr entrance_addr now) link
                            (negotiate_codec-Within now)
                            λ exchanged w.
                              Gives-bind _ Q
                                (link_and_configure ch our_addr entrance_addr id media exchanged)
                                (λ configured.
                                  wait_for_open rtpc_device_reest_name >> accept configured)
                                (link_and_configure-Gives id media exchanged)
                                λ configured e.
                                  Gives-behind Q (wait_for_open rtpc_device_reest_name)
                                    (λ waited. accept configured)
                                    λ waited.
                                      Gives-bind _ Q
                                        (accept_call ch our_addr entrance_addr configured)
                                        (finish_renewal ch our_addr entrance_addr secs frac)
                                        (accept_call-Within configured)
                                        λ accepted v s k r.
                                          let e' = finish_renewal-Gives secs frac accepted s k r in
                                          (
                                            omega (arith, w.0, e, v.0, e'),
                                            omega (arith, w.1, e, v.1, e'),
                                          )
