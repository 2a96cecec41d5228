-- ===== src/Protocol/Header.antt =====
-- protocol.py: the eight-byte packet header, and how client.py reads one packet from the stream.

use hass_comelit_intercom_lo.Base.{
  ℕ, [], ◌∷◌, ◌++◌, Result, ok, err, value_error, incomplete_read, ◌>>=◌, raise_if, ltb,
  if◌then◌else◌, length, take, drop,
}
use hass_comelit_intercom_lo.Base.Bytes.{Bytes, pack_le16, unpack_le16}

abbrev pub header_size : ℕ
header_size = 8

abbrev pub header_magic : Bytes
header_magic = 0x00 ∷ 0x06 ∷ []

unfoldable pub encode_header : ℕ → ℕ → Result Bytes
encode_header body_length request_id = do
  len ← pack_le16 body_length
  id ← pack_le16 request_id
  ok (header_magic ++ len ++ id ++ 0x00 ∷ 0x00 ∷ [])

unfoldable pub decode_header : Bytes → Result (ℕ × ℕ)
decode_header packet = raise_if (ltb (length packet) header_size) value_error (do
  body_length ← unpack_le16 packet 2
  request_id ← unpack_le16 packet 4
  ok (body_length, request_id))

-- One packet on the wire: the header, and the body behind it.
unfoldable pub encode_packet : ℕ → Bytes → Result Bytes
encode_packet request_id body = do
  header ← encode_header (length body) request_id
  ok (header ++ body)

-- `StreamReader.readexactly` on what the device sends until it closes the connection.
unfoldable pub readexactly : ℕ → Bytes → Result (Bytes × Bytes)
readexactly n stream =
    if ltb (length stream) n then err incomplete_read else ok (take n stream, drop n stream)

-- `_read_packet`: the request id and the body, and what is left of the stream. No body is read when
-- its length is 0.
unfoldable pub read_packet : Bytes → Result ((ℕ × Bytes) × Bytes)
read_packet stream = do
  (header, rest) ← readexactly header_size stream
  (body_length, request_id) ← decode_header header
  (body, rest') ← if ltb 0 body_length then readexactly body_length rest else ok ([], rest)
  ok ((request_id, body), rest')
