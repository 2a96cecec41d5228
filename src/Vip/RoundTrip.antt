-- ===== src/Vip/RoundTrip.antt =====
-- What `_build_ctpp_video_msg` of protocol.py writes, as `parse_ctpp_message` of vip_listener.py reads
-- it.
use hass_comelit_intercom_lo.Base.{
  ℕ, suc, ◌+◌, ◌%◌, ◌/◌, ◌<◌, ◌≡◌, ◌≢◌, refl, ap, ◌∙◌, some, List, [], ◌∷◌, ◌++◌, ok, arith, length,
  All, append_assoc,
}
use hass_comelit_intercom_lo.Base.Bytes.{
  Bytes, Str, IsAscii, pack_le16, pack_le32, pack_be16, unpack_le16, unpack_le32, unpack_be16,
  encode_ascii_of_IsAscii,
}
use hass_comelit_intercom_lo.Protocol.Channels.{null_terminated}
use hass_comelit_intercom_lo.Protocol.Video.{addresses, twice_terminated, build_ctpp_video_msg}
use hass_comelit_intercom_lo.Vip.Parse.{
  until_zero, decode_ascii, scan_addresses, parse_ctpp_message,
}

-- The text behind the `SB` of an address: ASCII, with no zero byte.
abbrev pub IsTail : Str → Type 0
IsTail = All (λ c. (0 < c) × (c < 128))

until_zero-append : (t rest : Bytes) → IsTail t → until_zero (t ++ 0 ∷ rest) ≡ t
unfolding until_zero
until_zero-append [] rest h = refl
until_zero-append (c ∷ t) rest h = ground (arith, until_zero-append t rest h.1)

decode_ascii_of_IsTail : (t : Str) → IsTail t → decode_ascii t ≡ t
unfolding decode_ascii
decode_ascii_of_IsTail [] h = refl
decode_ascii_of_IsTail (c ∷ t) h = ground (arith, decode_ascii_of_IsTail t h.1)

scan_addresses-skip :
    (t rest : Bytes) → scan_addresses (suc (length t)) (t ++ 0 ∷ rest) ≡ scan_addresses 0 rest
unfolding scan_addresses
scan_addresses-skip [] rest = refl
scan_addresses-skip (c ∷ t) rest = scan_addresses-skip t rest

-- Bytes that are no `S` begin no address.
scan_addresses-front :
    (front rest : Bytes)
    → All (λ b. b ≢ b'S') front
    → scan_addresses 0 (front ++ rest) ≡ scan_addresses 0 rest
unfolding scan_addresses
scan_addresses-front [] rest h = refl
scan_addresses-front (b ∷ []) [] h = refl
scan_addresses-front (b ∷ []) (c ∷ rest) h = ground (arith, h.0)
scan_addresses-front (b ∷ c ∷ front) rest h =
    ground (arith, h.0, scan_addresses-front (c ∷ front) rest h.1)

scan_addresses-address :
    (t rest : Bytes)
    → IsTail t
    → scan_addresses 0 (b'S' ∷ b'B' ∷ t ++ 0 ∷ rest) ≡ (b'S' ∷ b'B' ∷ t) ∷ scan_addresses 0 rest
unfolding scan_addresses decode_ascii until_zero
scan_addresses-address t rest h =
    let plus_one : suc (length t) + 1 ≡ suc (suc (length t)) = omega arith in
    rw (until_zero-append t rest h, plus_one, scan_addresses-skip t rest)
      (ap (λ x. (b'S' ∷ b'B' ∷ x) ∷ scan_addresses 0 rest) (decode_ascii_of_IsTail t h))

-- What the message has in front of its addresses.
abbrev pub message_front : ℕ → ℕ → ℕ → ℕ → Bytes → Bytes
message_front prefix timestamp action flags extra =
    prefix % 256
    ∷ prefix / 256
    ∷ timestamp % 256
    ∷ timestamp / 256 % 256
    ∷ timestamp / 65536 % 256
    ∷ timestamp / 16777216
    ∷ action / 256
    ∷ action % 256
    ∷ flags / 256
    ∷ flags % 256
    ∷ (extra ++ 0xFF ∷ 0xFF ∷ 0xFF ∷ 0xFF ∷ [])

abbrev message_addresses : Str → Str → Bytes
message_addresses t u = b'S' ∷ b'B' ∷ t ++ 0 ∷ (b'S' ∷ b'B' ∷ u ++ 0 ∷ 0 ∷ [])

IsTail-IsAscii : (t : Str) → IsTail t → IsAscii t
IsTail-IsAscii [] h = tt
IsTail-IsAscii (c ∷ t) h = (h.0.1, IsTail-IsAscii t h.1)

build_ctpp_video_msg-eq-ok :
    (prefix timestamp action flags : ℕ) (t u : Str) (extra packet : Bytes)
    → IsTail t
    → IsTail u
    → build_ctpp_video_msg prefix timestamp action flags (b'S' ∷ b'B' ∷ t) (b'S' ∷ b'B' ∷ u) extra
      ≡ ok packet
    → packet ≡ message_front prefix timestamp action flags extra ++ message_addresses t u
unfolding build_ctpp_video_msg addresses null_terminated twice_terminated pack_le16 pack_le32
    pack_be16
build_ctpp_video_msg-eq-ok prefix timestamp action flags t u extra packet ht hu h = ground (
  arith,
  encode_ascii_of_IsAscii (b'S' ∷ b'B' ∷ t) (omega arith, (omega arith, IsTail-IsAscii t ht)),
  encode_ascii_of_IsAscii (b'S' ∷ b'B' ∷ u) (omega arith, (omega arith, IsTail-IsAscii u hu)),
  append_assoc t (0 ∷ []) (b'S' ∷ b'B' ∷ u ++ 0 ∷ 0 ∷ []),
  append_assoc extra (0xFF ∷ 0xFF ∷ 0xFF ∷ 0xFF ∷ []) (message_addresses t u),
)

parse_ctpp_message-front :
    (prefix timestamp action flags : ℕ) (extra rest : Bytes) (found : List Str)
    → scan_addresses 0 (message_front prefix timestamp action flags extra ++ rest) ≡ found
    → parse_ctpp_message (message_front prefix timestamp action flags extra ++ rest)
      ≡ ok (
          some (record {
            prefix = prefix;
            timestamp = timestamp;
            action = action;
            flags = some flags;
            addresses = found;
            raw = message_front prefix timestamp action flags extra ++ rest;
          }))
unfolding parse_ctpp_message unpack_le16 unpack_le32 unpack_be16
parse_ctpp_message-front prefix timestamp action flags extra rest found h = ground (arith, h)

-- A message of `_build_ctpp_video_msg` between two addresses is read back: prefix, time stamp, action,
-- flags, and the two addresses in their order. The bytes in front of the addresses are none of them
-- an `S`, and the addresses are `SB` and ASCII characters that are not zero.
pub parse_ctpp_message-build_ctpp_video_msg :
    (prefix timestamp action flags : ℕ) (t u : Str) (extra packet : Bytes)
    → IsTail t
    → IsTail u
    → All (λ b. b ≢ b'S') (message_front prefix timestamp action flags extra)
    → build_ctpp_video_msg prefix timestamp action flags (b'S' ∷ b'B' ∷ t) (b'S' ∷ b'B' ∷ u) extra
      ≡ ok packet
    → parse_ctpp_message packet
      ≡ ok (
          some (record {
            prefix = prefix;
            timestamp = timestamp;
            action = action;
            flags = some flags;
            addresses = (b'S' ∷ b'B' ∷ t) ∷ (b'S' ∷ b'B' ∷ u) ∷ [];
            raw = packet;
          }))
unfolding scan_addresses
parse_ctpp_message-build_ctpp_video_msg prefix timestamp action flags t u extra packet ht hu hf h =
    let eq = build_ctpp_video_msg-eq-ok prefix timestamp action flags t u extra packet ht hu h in
    let found : scan_addresses 0
          (message_front prefix timestamp action flags extra ++ message_addresses t u)
        ≡ (b'S' ∷ b'B' ∷ t) ∷ (b'S' ∷ b'B' ∷ u) ∷ [] =
      scan_addresses-front (message_front prefix timestamp action flags extra)
        (message_addresses t u) hf
      ∙ scan_addresses-address t (b'S' ∷ b'B' ∷ u ++ 0 ∷ 0 ∷ []) ht
      ∙ ap (λ x. (b'S' ∷ b'B' ∷ t) ∷ x) (scan_addresses-address u (0 ∷ []) hu) in
    rw eq
      (parse_ctpp_message-front prefix timestamp action flags extra (message_addresses t u) _ found)
