-- ===== src/Protocol/RoundTrip.antt =====
-- What the packet header and the binary channel messages carry is read back: encode_header,
-- decode_header and `_read_packet`.
use hass_comelit_intercom_lo.Base.{
  ℕ, ◌+◌, ◌/◌, ◌%◌, ◌<◌, ◌≤◌, ◌≡◌, refl, ◌++◌, [], ◌∷◌, Result, ok, err, arith, length, take, drop,
  take-append_length, drop-append_length, length-append, append_assoc, length-drop,
}
use hass_comelit_intercom_lo.Base.Bytes.{Bytes, pack_le16, unpack_le16}
use hass_comelit_intercom_lo.Protocol.Header.{
  encode_header, decode_header, encode_packet, readexactly, read_packet,
}

-- A header that `encode_header` writes is read back by `decode_header`, whatever follows it.
pub decode_header-encode_header :
    (body_length request_id : ℕ) (header rest : Bytes)
    → encode_header body_length request_id ≡ ok header
    → decode_header (header ++ rest) ≡ ok (body_length, request_id)
unfolding encode_header decode_header pack_le16 unpack_le16
decode_header-encode_header body_length request_id header rest h = ground arith

-- The eight bytes of a header.
abbrev pub header_bytes : ℕ → ℕ → Bytes
header_bytes len id = 0x00 ∷ 0x06 ∷ len % 256 ∷ len / 256 ∷ id % 256 ∷ id / 256 ∷ 0x00 ∷ 0x00 ∷ []

pub encode_header-eq-ok :
    (len id : ℕ) (header : Bytes)
    → encode_header len id ≡ ok header
    → (header ≡ header_bytes len id) × (len < 65536) × (id < 65536)
unfolding encode_header pack_le16
encode_header-eq-ok len id header h = (ground arith, ground arith, ground arith)

pub encode_packet_of_fits :
    (id : ℕ) (body : Bytes)
    → length body < 65536
    → id < 65536
    → encode_packet id body ≡ ok (header_bytes (length body) id ++ body)
unfolding encode_packet encode_header pack_le16
encode_packet_of_fits id body hb hi = ground arith

pub encode_packet-eq-ok :
    (id : ℕ) (body packet : Bytes)
    → encode_packet id body ≡ ok packet
    → (packet ≡ header_bytes (length body) id ++ body) × (length body < 65536) × (id < 65536)
unfolding encode_packet encode_header pack_le16
encode_packet-eq-ok id body packet h = (ground arith, ground arith, ground arith)

readexactly-append : (xs ys : Bytes) → readexactly (length xs) (xs ++ ys) ≡ ok (xs, ys)
unfolding readexactly
readexactly-append xs ys =
    ground (arith, length-append xs ys, take-append_length xs ys, drop-append_length xs ys)

read_packet-header_bytes :
    (id : ℕ) (body rest : Bytes)
    → length body < 65536
    → id < 65536
    → read_packet (header_bytes (length body) id ++ (body ++ rest)) ≡ ok ((id, body), rest)
unfolding read_packet decode_header unpack_le16
read_packet-header_bytes id [] rest hb hi =
    ground (arith, readexactly-append (header_bytes 0 id) rest)
read_packet-header_bytes id (b ∷ body) rest hb hi = ground (
  arith,
  readexactly-append (header_bytes (length (b ∷ body)) id) (b ∷ body ++ rest),
  readexactly-append (b ∷ body) rest,
)

-- One packet written by `encode_packet` is read back whole by `_read_packet`, and what follows it
-- stays in the stream.
pub read_packet-encode_packet :
    (id : ℕ) (body packet rest : Bytes)
    → encode_packet id body ≡ ok packet
    → read_packet (packet ++ rest) ≡ ok ((id, body), rest)
read_packet-encode_packet id body packet rest h =
    let (e, hb, hi) = encode_packet-eq-ok id body packet h in
    rw e (
      rw (append_assoc (header_bytes (length body) id) body rest)
        (read_packet-header_bytes id body rest hb hi))

-- A packet that is read takes at least its header from the stream.
pub read_packet_shrinks :
    (stream body rest : Bytes) (id : ℕ)
    → read_packet stream ≡ ok ((id, body), rest)
    → length rest + 8 ≤ length stream
unfolding read_packet readexactly
read_packet_shrinks stream body rest id h = go (decode_header (take 8 stream)) refl
  where
    go : (r : Result (ℕ × ℕ)) → decode_header (take 8 stream) ≡ r → length rest + 8 ≤ length stream
    go (err e) p = ground (arith, p, h)
    go (ok (n, i)) p = ground (arith, p, h, length-drop 8 stream, length-drop n (drop 8 stream))
