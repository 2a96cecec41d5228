-- ===== src/VideoCall/Quiet.antt =====
-- video_call.py: the reads and the acknowledgements of a session while no other task runs, so that
-- the responses are those in the channel's queue.
use hass_comelit_intercom_lo.Base.{
  ℕ, ◌+◌, ◌/◌, ◌%◌, ◌<◌, append_assoc, length-append, ◌≡◌, refl, Option, none, some, List, [], ◌∷◌,
  ◌++◌, ok, arith, length,
}
use hass_comelit_intercom_lo.Base.Bytes.{
  Bytes, Str, IsAscii, pack_le16, pack_le32, pack_be16, encode_ascii_of_IsAscii,
}
use hass_comelit_intercom_lo.Protocol.Channels.{null_terminated}
use hass_comelit_intercom_lo.Base.Dict.{get, put, get-put_self, str_keys}
use hass_comelit_intercom_lo.Client.State.{Channel}
use hass_comelit_intercom_lo.Client.Calls.{read_response, take_response}
use hass_comelit_intercom_lo.Client.Sends.{
  CanSend, packet_on, with_sent, CanSend-with_sent, send_payload_lem,
}
use hass_comelit_intercom_lo.Protocol.Video.{addresses, twice_terminated, encode_call_response_ack}
use hass_comelit_intercom_lo.VideoCall.Session.{
  Call, with_client, send_message, read, wait, wait_for,
}
use hass_comelit_intercom_lo.VideoCall.Exchange.{send_call_ack}

-- No other task runs, the channel and the connection are open, and these responses are queued.
pub record IsQuiet {Msg : Type 0} (ch : Channel) (responses : List Bytes) (s : Call Msg)
    : Type 0 where
  pub alone : s.waits ≡ []
  pub sends : CanSend ch s.client
  pub registered : Channel
  pub found : get ch.name s.client.channels ≡ some registered
  pub queued : registered.response_queue ≡ responses

-- The oldest response, and those behind it.
abbrev pub first_of : List Bytes → Option Bytes
first_of [] = none
first_of (b ∷ rest) = some b

abbrev pub rest_of : List Bytes → List Bytes
rest_of [] = []
rest_of (b ∷ rest) = rest

-- Every acknowledgement below 2 ^ 32 can be encoded, and fits a packet.
abbrev pub Encodes : Str → Str → (ℕ → Bytes) → Type 0
Encodes our_addr entrance_addr body =
    (k : ℕ)
    → k < 4294967296
    → (encode_call_response_ack our_addr entrance_addr k 0x1800 ≡ ok (body k))
      × (length (body k) < 65536)

-- The bytes of an acknowledgement.
abbrev pub ack_bytes : Str → Str → ℕ → Bytes
ack_bytes our_addr entrance_addr k =
    0x00
    ∷ 0x18
    ∷ k % 256
    ∷ k / 256 % 256
    ∷ k / 65536 % 256
    ∷ k / 16777216
    ∷ 0
    ∷ 0
    ∷ 0xFF
    ∷ 0xFF
    ∷ 0xFF
    ∷ 0xFF
    ∷ (our_addr ++ 0 ∷ (entrance_addr ++ 0 ∷ 0 ∷ []))

-- ASCII addresses that a packet has room for can be encoded.
pub ack_bytes-Encodes :
    (our_addr entrance_addr : Str)
    → IsAscii our_addr
    → IsAscii entrance_addr
    → length our_addr + length entrance_addr < 65000
    → Encodes our_addr entrance_addr (ack_bytes our_addr entrance_addr)
unfolding encode_call_response_ack addresses null_terminated twice_terminated pack_le16 pack_le32
    pack_be16
ack_bytes-Encodes our_addr entrance_addr ascii ascii' room k lt = (
  rw (encode_ascii_of_IsAscii our_addr ascii, encode_ascii_of_IsAscii entrance_addr ascii')
      (ground (arith, append_assoc our_addr (0 ∷ []) (entrance_addr ++ 0 ∷ 0 ∷ []))),
  ground (
    arith,
    room,
    length-append our_addr (0 ∷ (entrance_addr ++ 0 ∷ 0 ∷ [])),
    length-append entrance_addr (0 ∷ 0 ∷ []),
  ),
)

module _ {Msg : Type 0} (ch : Channel) where
  -- A read gives the first response, sends nothing, and leaves the others.
  pub read-IsQuiet :
      (responses : List Bytes) (s : Call Msg)
      → IsQuiet ch responses s
      → (s' : Call Msg) × (read ch.name s ≡ (s', ok (first_of responses)))
        × IsQuiet ch (rest_of responses) s'
        × (s'.client.sent ≡ s.client.sent)
        × (s'.session ≡ s.session)
  unfolding read wait wait_for read_response take_response
  read-IsQuiet [] s h = (
    s,
    rw (read, wait, h.alone, wait_for, read_response, h.found, take_response, h.queued) refl,
    h,
    refl,
    refl,
  )
  read-IsQuiet (b ∷ rest) s h =
      let registered = record h.registered { response_queue = rest } in
      let c = record s.client { channels = put ch.name registered s.client.channels } in
      (
        with_client s c,
        rw (read, wait, h.alone, wait_for, read_response, h.found, take_response, h.queued) refl,
        record {
          alone = h.alone;
          sends = record {
            usable = h.sends.usable;
            writer = h.sends.writer;
            channel_id = h.sends.channel_id;
          };
          registered = registered;
          found = get-put_self ch.name registered s.client.channels;
          queued = refl;
        },
        refl,
        refl,
      )

  pub IsQuiet-with_sent :
      (responses : List Bytes) (packets : List Bytes) (s : Call Msg)
      → IsQuiet ch responses s
      → IsQuiet ch responses (with_client s (with_sent s.client packets))
  IsQuiet-with_sent responses packets s h = record {
    alone = h.alone;
    sends = CanSend-with_sent ch s.client packets h.sends;
    registered = h.registered;
    found = h.found;
    queued = h.queued;
  }

  -- An acknowledgement is one more packet, and nothing else.
  pub send_call_ack-IsQuiet :
      (our_addr entrance_addr : Str) (body : ℕ → Bytes) (counter : ℕ) (s : Call Msg)
      → CanSend ch s.client
      → Encodes our_addr entrance_addr body
      → counter < 4294967296
      → send_call_ack ch our_addr entrance_addr counter s
        ≡ (with_client s (with_sent s.client (packet_on ch (body counter) ∷ [])), ok tt)
  unfolding send_call_ack send_message
  send_call_ack-IsQuiet our_addr entrance_addr body counter s h enc lt =
      rw
        (
          send_call_ack,
          send_message,
          (enc counter lt).0,
          send_payload_lem ch (body counter) s.client h (enc counter lt).1,
        )
        refl
