-- ===== src/Vip/Acks.antt =====
-- vip_listener.py: which acknowledgements a message gets.
use hass_comelit_intercom_lo.Base.{
  ℕ, ◌+◌, ◌/◌, ◌%◌, ◌<◌, ◌≡◌, ◌==◌, refl, true, ◌&&◌, ◌||◌, List, [], ◌∷◌, ◌++◌, ok, map, arith,
  length, length-append, append-nil, append_assoc, if◌then◌else◌,
}
use hass_comelit_intercom_lo.Base.Bits.{bit_xor_direction}
use hass_comelit_intercom_lo.Base.Bytes.{
  Bytes, IsAscii, pack_le16, pack_le32, pack_be16, encode_ascii_of_IsAscii,
}
use hass_comelit_intercom_lo.Protocol.Channels.{null_terminated}
use hass_comelit_intercom_lo.Protocol.Video.{addresses, twice_terminated, encode_call_response_ack}
use hass_comelit_intercom_lo.Protocol.RoundTrip.{header_bytes, encode_packet_of_fits}
use hass_comelit_intercom_lo.Base.Dict.{put, str_keys}
use hass_comelit_intercom_lo.Client.State.{Client}
use hass_comelit_intercom_lo.Client.Calls.{is_usable, send, send_encoded, send_binary}
use hass_comelit_intercom_lo.Vip.Parse.{CtppMessage, derive_event_ack_ts}
use hass_comelit_intercom_lo.Vip.Listener.{
  Vip, vip_address, send_ack, send_event_ack, second_ack, send_renewal_ack, is_acked,
  process_parsed,
}

-- The time stamp of an acknowledgement has four bytes, whatever the device's is.
pub derive_event_ack_ts_below : (ts : ℕ) → derive_event_ack_ts ts < 4294967296
unfolding derive_event_ack_ts
derive_event_ack_ts_below ts = omega (arith, bit_xor_direction (ts % 256) (omega arith))

-- An acknowledgement can be sent: the channel and the connection are open, and the addresses are
-- ASCII texts that a packet has room for.
pub record CanAck {Msg : Type 0} (v : Vip) (c : Client Msg) : Type 0 where
  pub usable : is_usable v.channel ≡ true
  pub writer : c.has_writer ≡ true
  pub channel_id : v.channel.server_channel_id < 65536
  pub vip_ascii : IsAscii (vip_address v)
  pub apt_ascii : IsAscii v.apt_address
  pub room : length (vip_address v) + length v.apt_address < 65000
  pub ack_ts : v.ack_ts < 4294967296

-- The bytes of an acknowledgement.
abbrev pub ack_body : Vip → ℕ × ℕ → Bytes
ack_body v (ts, prefix) =
    prefix % 256
    ∷ prefix / 256
    ∷ ts % 256
    ∷ ts / 256 % 256
    ∷ ts / 65536 % 256
    ∷ ts / 16777216
    ∷ 0
    ∷ 0
    ∷ 0xFF
    ∷ 0xFF
    ∷ 0xFF
    ∷ 0xFF
    ∷ (vip_address v ++ 0 ∷ (v.apt_address ++ 0 ∷ 0 ∷ []))

abbrev pub ack_packet : Vip → ℕ × ℕ → Bytes
ack_packet v ack =
    header_bytes (length (ack_body v ack)) v.channel.server_channel_id ++ ack_body v ack

-- What a message is answered with, as the time stamps and prefixes: a renewal by a pair, a call by
-- one, the other events by one, but an opened door by none.
abbrev pub expected_acks : Vip → CtppMessage → List (ℕ × ℕ)
expected_acks v msg =
    if msg.prefix == 0x1860 && msg.action == 0x0010
    then (v.ack_ts, 0x1800) ∷ (v.ack_ts, 0x1820) ∷ []
    else if msg.prefix == 0x1860 && msg.action == 0x0003
    then []
    else if msg.prefix == 0x18C0 || (msg.prefix == 0x1840 || msg.prefix == 0x1860)
    then (derive_event_ack_ts msg.timestamp, 0x1800) ∷ []
    else []

module _ {Msg : Type 0} where
  -- The client after these packets are written.
  abbrev pub after_sending : Client Msg → List Bytes → Client Msg
  after_sending c packets = record c { sent = c.sent ++ packets }

  encode_call_response_ack_lem :
      (v : Vip) (c : Client Msg) (ts prefix : ℕ)
      → CanAck v c
      → ts < 4294967296
      → prefix < 65536
      → encode_call_response_ack (vip_address v) v.apt_address ts prefix
        ≡ ok (ack_body v (ts, prefix))
  unfolding encode_call_response_ack addresses null_terminated twice_terminated pack_le16 pack_le32
      pack_be16
  encode_call_response_ack_lem v c ts prefix h lt lt' =
      rw
        (
          encode_ascii_of_IsAscii (vip_address v) h.vip_ascii,
          encode_ascii_of_IsAscii v.apt_address h.apt_ascii,
        )
        (ground (arith, append_assoc (vip_address v) (0 ∷ []) (v.apt_address ++ 0 ∷ 0 ∷ [])))

  send_ack_lem :
      (v : Vip) (c : Client Msg) (ts prefix : ℕ)
      → CanAck v c
      → ts < 4294967296
      → prefix < 65536
      → send_ack v ts prefix c ≡ (after_sending c (ack_packet v (ts, prefix) ∷ []), ok tt)
  unfolding send_ack send_binary send_encoded send
  send_ack_lem v c ts prefix h lt lt' =
      let body = ack_body v (ts, prefix) in
      let short : length body < 65536 = ground (
        arith,
        h.room,
        length-append (vip_address v) (0 ∷ (v.apt_address ++ 0 ∷ 0 ∷ [])),
        length-append v.apt_address (0 ∷ 0 ∷ []),
      ) in
      rw (send_ack, encode_call_response_ack_lem v c ts prefix h lt lt')
        (rw
          (
            send_binary,
            h.usable,
            encode_packet_of_fits v.channel.server_channel_id body short h.channel_id,
            h.writer,
          )
          refl)

  CanAck-sending :
      (v : Vip) (c : Client Msg) (packets : List Bytes)
      → CanAck v c
      → CanAck v (after_sending c packets)
  CanAck-sending v c packets h = record {
    usable = h.usable;
    writer = h.writer;
    channel_id = h.channel_id;
    vip_ascii = h.vip_ascii;
    apt_ascii = h.apt_ascii;
    room = h.room;
    ack_ts = h.ack_ts;
  }

  send_event_ack_lem :
      (v : Vip) (msg : CtppMessage) (c : Client Msg)
      → CanAck v c
      → send_event_ack v msg c
        ≡ after_sending c (ack_packet v (derive_event_ack_ts msg.timestamp, 0x1800) ∷ [])
  unfolding send_event_ack vip_address
  send_event_ack_lem v msg c h =
      rw
        (
          send_event_ack,
          send_ack_lem v c _ 0x1800 h (derive_event_ack_ts_below msg.timestamp) (omega arith),
        )
        refl

  send_renewal_ack_lem :
      (v : Vip) (c : Client Msg)
      → CanAck v c
      → send_renewal_ack v c
        ≡ after_sending c (ack_packet v (v.ack_ts, 0x1800) ∷ ack_packet v (v.ack_ts, 0x1820) ∷ [])
  unfolding send_renewal_ack second_ack vip_address
  send_renewal_ack_lem v c h =
      rw (send_renewal_ack, send_ack_lem v c v.ack_ts 0x1800 h h.ack_ts (omega arith))
        (rw
          (
            second_ack,
            send_ack_lem v (after_sending c (ack_packet v (v.ack_ts, 0x1800) ∷ [])) v.ack_ts 0x1820
                (CanAck-sending v c _ h) h.ack_ts (omega arith),
          )
          (ground (
            arith,
            append_assoc c.sent (ack_packet v (v.ack_ts, 0x1800) ∷ [])
                (ack_packet v (v.ack_ts, 0x1820) ∷ []),
          )))

  -- Where acknowledgements can be sent, a message is answered with the expected ones and nothing else:
  -- two for a renewal, none for an opened door, one for any other event of a call or of the VIP, and
  -- none for a message with another prefix.
  pub process_parsed_acks :
      (now later : ℕ) (msg : CtppMessage) (v : Vip) (c : Client Msg)
      → CanAck v c
      → (process_parsed now later msg v c).1
        ≡ after_sending c (map (ack_packet v) (expected_acks v msg))
  unfolding process_parsed is_acked vip_address
  process_parsed_acks now later msg v c h =
      let seen : Vip = record v {
        last_seen_ts = put (msg.prefix ∷ msg.action ∷ []) (msg.timestamp ∷ now ∷ []) v.last_seen_ts;
      } in
      let can : CanAck seen c = record {
        usable = h.usable;
        writer = h.writer;
        channel_id = h.channel_id;
        vip_ascii = h.vip_ascii;
        apt_ascii = h.apt_ascii;
        room = h.room;
        ack_ts = h.ack_ts;
      } in
      let event : send_event_ack seen msg c
          ≡ after_sending c (ack_packet v (derive_event_ack_ts msg.timestamp, 0x1800) ∷ []) =
        send_event_ack_lem seen msg c can in
      let renewal : send_renewal_ack seen c
          ≡ after_sending c
              (ack_packet v (v.ack_ts, 0x1800) ∷ ack_packet v (v.ack_ts, 0x1820) ∷ []) =
        send_renewal_ack_lem seen c can in
      ground (arith, event, renewal, append-nil c.sent)
