-- ===== src/VideoCall/Sharing.antt =====
-- video_call.py: the counter that the monitor, the answer and the door commands share.
use hass_comelit_intercom_lo.Base.{
  ℕ, ◌+◌, ◌<◌, ◌≡◌, refl, ◌∙◌, ap, sym, subst, true, Option, some, [], ◌∷◌, append_assoc, Result,
  ok, length,
}
use hass_comelit_intercom_lo.Base.Bytes.{Bytes, Str}
use hass_comelit_intercom_lo.Client.State.{Channel}
use hass_comelit_intercom_lo.Client.Calls.{get_channel}
use hass_comelit_intercom_lo.Client.Sends.{
  CanSend, packet_on, with_sent, CanSend-with_sent, send_payload_lem,
}
use hass_comelit_intercom_lo.Protocol.Video.{
  encode_call_response_ack, encode_door_open_during_video,
}
use hass_comelit_intercom_lo.VideoCall.Session.{Call, send_message}
use hass_comelit_intercom_lo.VideoCall.Exchange.{send_call_ack}
use hass_comelit_intercom_lo.VideoCall.Cleanup.{ctpp_name}
use hass_comelit_intercom_lo.VideoCall.Monitor.{
  Monitor, acknowledge, goes_on, set_counter, acknowledge_step, acknowledge_end, on_request,
  send_next, door_on, open_door_on_ctpp,
}

module _ {Msg : Type 0} (m : Monitor) (now secs frac : ℕ) where
  send_next_lem :
      (ch : Channel) (encode : ℕ → Result Bytes) (payload : Bytes) (s : Call Msg)
      → CanSend ch s.client
      → encode (s.session.call_counter + 0x00010000) ≡ ok payload
      → length payload < 65536
      → send_next ch encode s ≡ (
        record s {
          client = with_sent s.client (packet_on ch payload ∷ []);
          session = set_counter (s.session.call_counter + 0x00010000) s.session;
        },
        ok tt,
      )
  unfolding send_next send_message
  send_next_lem ch encode payload s can e short =
      rw (send_next, e, send_payload_lem ch payload s.client can short) refl

  open_door_on_ctpp_lem :
      (relay_index : ℕ) (apt_addr : Option Str) (door : Bytes) (s : Call Msg)
      → get_channel ctpp_name s.client ≡ some m.channel
      → s.session.active ≡ true
      → CanSend m.channel s.client
      → encode_door_open_during_video m.our_addr m.entrance_addr
          (s.session.call_counter + 0x00010000)
          relay_index
          apt_addr
        ≡ ok door
      → length door < 65536
      → open_door_on_ctpp m.our_addr m.entrance_addr relay_index apt_addr s ≡ (
        record s {
          client = with_sent s.client (packet_on m.channel door ∷ []);
          session = set_counter (s.session.call_counter + 0x00010000) s.session;
        },
        ok tt,
      )
  unfolding open_door_on_ctpp door_on
  open_door_on_ctpp_lem relay_index apt_addr door s found active can e short =
      let encode : ℕ → Result Bytes =
        λ k. encode_door_open_during_video m.our_addr m.entrance_addr k relay_index apt_addr in
      ap (λ o. door_on o s.session.active encode s) found
      ∙ ap (λ a. door_on (some m.channel) a encode s) active
      ∙ send_next_lem m.channel encode door s can e short

  acknowledge_lem :
      (counter : ℕ) (keepalive : Bytes) (s : Call Msg)
      → CanSend m.channel s.client
      → encode_call_response_ack m.our_addr m.entrance_addr (counter + 0x00010000) 0x1800
        ≡ ok keepalive
      → length keepalive < 65536
      → on_request m now secs frac acknowledge counter s ≡ (
        record s {
          client = with_sent s.client (packet_on m.channel keepalive ∷ []);
          session = set_counter (counter + 0x00010000) s.session;
        },
        goes_on (counter + 0x00010000),
      )
  unfolding on_request acknowledge_step acknowledge_end send_call_ack send_message
  acknowledge_lem counter keepalive s can e short =
      rw
        (
          on_request,
          acknowledge_step,
          send_call_ack,
          send_message,
          e,
          send_payload_lem m.channel keepalive s.client can short,
        )
        refl

  -- While a call is active and its channel open, a door that is opened and the acknowledgement of the
  -- next message go out under one and the same counter: the monitor does not see that the door's
  -- command has moved the session's counter on. Both messages can be encoded under that counter, and
  -- fit a packet.
  pub open_door_on_ctpp-reuses :
      (relay_index counter : ℕ) (apt_addr : Option Str) (door keepalive : Bytes) (s : Call Msg)
      → get_channel ctpp_name s.client ≡ some m.channel
      → s.session.active ≡ true
      → s.session.call_counter ≡ counter
      → CanSend m.channel s.client
      → encode_door_open_during_video m.our_addr m.entrance_addr
          (counter + 0x00010000)
          relay_index
          apt_addr
        ≡ ok door
      → encode_call_response_ack m.our_addr m.entrance_addr (counter + 0x00010000) 0x1800
        ≡ ok keepalive
      → length door < 65536
      → length keepalive < 65536
      → let opened = open_door_on_ctpp m.our_addr m.entrance_addr relay_index apt_addr s in
        let acked = on_request m now secs frac acknowledge counter opened.0 in
        (opened.1 ≡ ok tt)
        × (acked.0.client
            ≡ with_sent s.client (packet_on m.channel door ∷ packet_on m.channel keepalive ∷ []))
        × (acked.1 ≡ goes_on (counter + 0x00010000))
        × (acked.0.session.call_counter ≡ counter + 0x00010000)
  unfolding set_counter
  open_door_on_ctpp-reuses relay_index counter apt_addr door keepalive s found active same can e e'
        short short' =
      let client = with_sent s.client (packet_on m.channel door ∷ []) in
      rw
        (
          open_door_on_ctpp_lem relay_index apt_addr door s found active can
              (subst
                (λ k.
                  encode_door_open_during_video m.our_addr m.entrance_addr (k + 0x00010000)
                    relay_index apt_addr
                  ≡ ok door)
                (sym same) e)
              short,
          acknowledge_lem counter keepalive
              (record s {
                client = client;
                session = set_counter (s.session.call_counter + 0x00010000) s.session;
              })
              (CanSend-with_sent m.channel s.client _ can) e' short',
        )
        (
          refl,
          ap (λ sent. record s.client { sent = sent })
              (append_assoc s.client.sent (packet_on m.channel door ∷ [])
                (packet_on m.channel keepalive ∷ [])),
          refl,
          refl,
        )
