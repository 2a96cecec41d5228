-- ===== src/VideoCall/Kept.antt =====
-- video_call.py: what a renewal leaves alone among the session's fields, whatever happens.
use hass_comelit_intercom_lo.Base.{ℕ, zero, suc, ◌+◌, refl, Bool, true, false, Option, none, some}
use hass_comelit_intercom_lo.Base.Bytes.{Str}
use hass_comelit_intercom_lo.Client.State.{Channel}
use hass_comelit_intercom_lo.Rtsp.Server.{Server}
use hass_comelit_intercom_lo.VideoCall.Session.{VideoSession, Act}
use hass_comelit_intercom_lo.VideoCall.Exchange.{
  Round, give_up, skip, ack, response_of, codec_round, link_round, do_round, exchange,
  send_call_ack, run_codec_exchange, ack_device_rtpc_link,
}
use hass_comelit_intercom_lo.VideoCall.Logic.{
  Preserves, Preserves-bind, return-Preserves, lift-Preserves, send_message-Preserves,
  call_client-Preserves, wait-Preserves, read-Preserves, wait_for_open-Preserves,
  set_session-Preserves, now_state-Preserves,
}
use hass_comelit_intercom_lo.VideoCall.Cleanup.{rtpc_device_reest_name}
use hass_comelit_intercom_lo.VideoCall.Start.{
  split_last, init_sequence, add_placeholder, call_init_messages, negotiate_codec,
  link_and_configure, accept_call, reset_some, reset_server, finish_renewal, reestablish,
}

-- The fields that the monitor's loop goes by.
abbrev pub watched : VideoSession → Bool × ℕ
watched v = (v.active, v.call_counter)

add_placeholder-Preserves :
    {Msg B : Type 0} (part : VideoSession → B) (name : Str)
    → Preserves {Msg = Msg} part (add_placeholder name)
unfolding add_placeholder
add_placeholder-Preserves part name = record { kept = λ s. refl }

module _ {Msg : Type 0} (ch : Channel) (our_addr entrance_addr : Str) where
  pub send_call_ack-Preserves :
      (k : ℕ) → Preserves {Msg = Msg} watched (send_call_ack ch our_addr entrance_addr k)
  unfolding send_call_ack
  send_call_ack-Preserves k = send_message-Preserves watched ch _

  do_round-Preserves :
      (r : Round) (next : ℕ → Act Msg ℕ) (counter : ℕ)
      → ((k : ℕ) → Preserves watched (next k))
      → Preserves watched (do_round ch our_addr entrance_addr r next counter)
  unfolding do_round
  do_round-Preserves give_up next counter ih = return-Preserves watched counter
  do_round-Preserves skip next counter ih = ih counter
  do_round-Preserves (ack incr true) next counter ih =
      Preserves-bind watched (send_call_ack-Preserves (counter + incr))
        λ sent. return-Preserves watched (counter + incr)
  do_round-Preserves (ack incr false) next counter ih =
      Preserves-bind watched (send_call_ack-Preserves (counter + incr)) λ sent. ih (counter + incr)

  exchange-Preserves :
      (round : Option (ℕ × ℕ) → Round) (n counter : ℕ)
      → Preserves {Msg = Msg} watched (exchange ch our_addr entrance_addr round n counter)
  unfolding exchange
  exchange-Preserves round zero counter = return-Preserves watched counter
  exchange-Preserves round (suc n) counter =
      Preserves-bind watched (read-Preserves watched ch.name)
        λ resp. do_round-Preserves (round (response_of resp)) _ counter (exchange-Preserves round n)

  call_init_messages-Preserves :
      (now : ℕ) → Preserves {Msg = Msg} watched (call_init_messages ch our_addr entrance_addr now)
  unfolding call_init_messages
  call_init_messages-Preserves now = send_message-Preserves watched ch _

  negotiate_codec-Preserves :
      (now : ℕ) → Preserves {Msg = Msg} watched (negotiate_codec ch our_addr entrance_addr now)
  unfolding negotiate_codec run_codec_exchange
  negotiate_codec-Preserves now = Preserves-bind watched (read-Preserves watched ch.name) λ resp.
      Preserves-bind watched (send_message-Preserves watched ch _)
        λ sent. exchange-Preserves codec_round 10 _

  link_and_configure-Preserves :
      (id media counter : ℕ)
      → Preserves {Msg = Msg} watched
          (link_and_configure ch our_addr entrance_addr id media counter)
  unfolding link_and_configure
  link_and_configure-Preserves id media counter =
      Preserves-bind watched (send_message-Preserves watched ch _) λ sent.
        Preserves-bind watched (send_message-Preserves watched ch _)
          λ sent'. return-Preserves watched _

  accept_call-Preserves :
      (counter : ℕ) → Preserves {Msg = Msg} watched (accept_call ch our_addr entrance_addr counter)
  unfolding accept_call ack_device_rtpc_link
  accept_call-Preserves counter =
      Preserves-bind watched (exchange-Preserves link_round 5 counter) λ k.
        Preserves-bind watched (send_message-Preserves watched ch _)
          λ sent. return-Preserves watched _

  reset_some-Preserves :
      (secs frac : ℕ) (o : Option Server) → Preserves {Msg = Msg} watched (reset_some secs frac o)
  unfolding reset_some
  reset_some-Preserves secs frac none = return-Preserves watched tt
  reset_some-Preserves secs frac (some server) =
      Preserves-bind watched (lift-Preserves watched _)
        λ server'. set_session-Preserves watched _ λ v. refl

  finish_renewal-Preserves :
      (secs frac k : ℕ)
      → Preserves {Msg = Msg} watched (finish_renewal ch our_addr entrance_addr secs frac k)
  unfolding finish_renewal reset_server
  finish_renewal-Preserves secs frac k =
      Preserves-bind watched (send_message-Preserves watched ch _) λ sent.
        Preserves-bind watched
          (Preserves-bind watched (now_state-Preserves watched)
            λ s. reset_some-Preserves secs frac s.session.rtsp_server)
          λ done. return-Preserves watched _

  init_sequence-Preserves :
      (apt_addr : Str) (apt_sub now : ℕ)
      → Preserves {Msg = Msg} watched (init_sequence ch apt_addr apt_sub our_addr now)
  unfolding init_sequence
  init_sequence-Preserves apt_addr apt_sub now =
      Preserves-bind watched (call_client-Preserves watched _) λ begun.
        Preserves-bind watched (wait-Preserves watched) λ waited. call_client-Preserves watched _

  -- A renewal, whether it returns or raises, leaves the flag and the counter of the session alone.
  pub reestablish-Preserves :
      (id media now secs frac counter : ℕ)
      → Preserves {Msg = Msg} watched
          (reestablish ch our_addr entrance_addr id media now secs frac counter)
  unfolding reestablish
  reestablish-Preserves id media now secs frac counter =
      Preserves-bind watched (lift-Preserves watched (split_last our_addr)) λ split.
        Preserves-bind watched (send_call_ack-Preserves _) λ acked.
          Preserves-bind watched (init_sequence-Preserves split.0 split.1 now) λ inited.
            Preserves-bind watched (add_placeholder-Preserves watched rtpc_device_reest_name)
              λ placed. Preserves-bind watched (call_init_messages-Preserves now) λ called.
                Preserves-bind watched (negotiate_codec-Preserves now) λ exchanged.
                  Preserves-bind watched (link_and_configure-Preserves id media exchanged) λ linked.
                    Preserves-bind watched (wait_for_open-Preserves watched rtpc_device_reest_name)
                      λ waited.
                        Preserves-bind watched (accept_call-Preserves linked)
                          (finish_renewal-Preserves secs frac)
