-- ===== src/Client/Sends.antt =====
-- client.py: binary payloads that a caller sends on a channel, one after another.
use hass_comelit_intercom_lo.Base.{
  ◌<◌, ◌≡◌, refl, true, Option, none, some, arith, append_assoc, List, [], ◌∷◌, ◌++◌, Result, ok,
  err, length,
}
use hass_comelit_intercom_lo.Base.Bytes.{Bytes, Str}
use hass_comelit_intercom_lo.Base.Dict.{get, str_keys}
use hass_comelit_intercom_lo.Protocol.RoundTrip.{header_bytes, encode_packet_of_fits}
use hass_comelit_intercom_lo.Client.State.{Channel, Client}
use hass_comelit_intercom_lo.Client.Calls.{
  is_usable, send, send_encoded, send_binary, take_response, read_response,
}

module _ {Msg : Type 0} where
  -- The code behind a call that may raise.
  unfoldable pub and_then :
      Client Msg × Result (Unit {0})
      → (Client Msg → Client Msg × Result (Unit {0}))
      → Client Msg × Result (Unit {0})
  and_then (c, err e) next = (c, err e)
  and_then (c, ok done) next = next c

  -- client.send_binary(channel, encode(...)): where the encoder raises, nothing is sent.
  unfoldable pub send_payload : Channel → Result Bytes → Client Msg → Client Msg × Result (Unit {0})
  send_payload ch (err e) c = (c, err e)
  send_payload ch (ok payload) c = send_binary ch payload c

-- The channel and the connection are open.
pub record CanSend {Msg : Type 0} (ch : Channel) (c : Client Msg) : Type 0 where
  pub usable : is_usable ch ≡ true
  pub writer : c.has_writer ≡ true
  pub channel_id : ch.server_channel_id < 65536

-- A payload in its packet, on the wire.
abbrev pub packet_on : Channel → Bytes → Bytes
packet_on ch payload = header_bytes (length payload) ch.server_channel_id ++ payload

module _ {Msg : Type 0} where
  abbrev pub with_sent : Client Msg → List Bytes → Client Msg
  with_sent c packets = record c { sent = c.sent ++ packets }

  pub CanSend-with_sent :
      (ch : Channel) (c : Client Msg) (packets : List Bytes)
      → CanSend ch c
      → CanSend ch (with_sent c packets)
  CanSend-with_sent ch c packets h = record {
    usable = h.usable;
    writer = h.writer;
    channel_id = h.channel_id;
  }

  pub send_payload_lem :
      (ch : Channel) (payload : Bytes) (c : Client Msg)
      → CanSend ch c
      → length payload < 65536
      → send_payload ch (ok payload) c ≡ (with_sent c (packet_on ch payload ∷ []), ok tt)
  unfolding send_payload send_binary send_encoded send
  send_payload_lem ch payload c h short =
      rw (h.usable, encode_packet_of_fits ch.server_channel_id payload short h.channel_id, h.writer)
        refl

  -- Two payloads, the second once the first is sent.
  pub send_two_payloads :
      (ch : Channel) (p q : Bytes) (c : Client Msg)
      → CanSend ch c
      → length p < 65536
      → length q < 65536
      → and_then (send_payload ch (ok p) c) (λ c'. send_payload ch (ok q) c')
        ≡ (with_sent c (packet_on ch p ∷ packet_on ch q ∷ []), ok tt)
  unfolding and_then
  send_two_payloads ch p q c h ps qs = rw (send_payload_lem ch p c h ps) (
      rw (send_payload_lem ch q (with_sent c (packet_on ch p ∷ [])) (CanSend-with_sent ch c _ h) qs)
        (ground (arith, append_assoc c.sent (packet_on ch p ∷ []) (packet_on ch q ∷ []))))

  -- A third one, once two are sent.
  pub send_third_payload :
      (ch : Channel) (r : Bytes) (packets : List Bytes) (c : Client Msg)
      → CanSend ch c
      → length r < 65536
      → and_then (with_sent c packets, ok tt) (λ c'. send_payload ch (ok r) c')
        ≡ (with_sent c (packets ++ packet_on ch r ∷ []), ok tt)
  unfolding and_then
  send_third_payload ch r packets c h rs =
      rw (send_payload_lem ch r (with_sent c packets) (CanSend-with_sent ch c _ h) rs)
        (ground (arith, append_assoc c.sent packets (packet_on ch r ∷ [])))

  take_response-CanSend :
      (ch : Channel) (name : Str) (o : Option Channel) (c : Client Msg)
      → CanSend ch c
      → CanSend ch (take_response name o c).1
  unfolding take_response
  take_response-CanSend ch name none c h = h
  take_response-CanSend ch name (some old) c h = go old.response_queue refl
    where
      go :
          (q : List Bytes) → old.response_queue ≡ q → CanSend ch (take_response name (some old) c).1
      go [] e = rw (take_response, e) h
      go (b ∷ q) e =
          rw (take_response, e)
            (record { usable = h.usable; writer = h.writer; channel_id = h.channel_id })

  pub read_response-CanSend :
      (ch : Channel) (name : Str) (c : Client Msg)
      → CanSend ch c
      → CanSend ch (read_response name c).1
  unfolding read_response
  read_response-CanSend ch name c h = take_response-CanSend ch name (get name c.channels) c h
