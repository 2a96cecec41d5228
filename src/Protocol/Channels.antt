-- ===== src/Protocol/Channels.antt =====
-- protocol.py: the binary messages that open and close channels, and the test for a JSON body.
use hass_comelit_intercom_lo.Base.{
  ℕ, ◌+◌, Bool, false, ◌==◌, Option, none, some, [], ◌∷◌, ◌++◌, Result, ok, ◌>>=◌, leb,
  if◌then◌else◌, length,
}
use hass_comelit_intercom_lo.Base.Bytes.{
  Bytes, Str, pack_le16, pack_le32, byte_of, encode_ascii, unpack_le16,
}
use hass_comelit_intercom_lo.Protocol.Header.{encode_packet}

-- `MessageType`
abbrev pub command : ℕ
command = 0xABCD

abbrev pub end : ℕ
end = 0x01EF

abbrev pub null : Bytes
null = 0x00 ∷ []

unfoldable pub null_terminated : Str → Result Bytes
null_terminated s = do text ← encode_ascii s; ok (text ++ null)

-- `if extra_data:` is false for `None` and for the empty text.
unfoldable pub encode_extra_data : Option Str → Result Bytes
encode_extra_data none = ok []
encode_extra_data (some []) = ok []
encode_extra_data (some (c ∷ s)) = do
  extra_bytes ← encode_ascii (c ∷ s)
  size ← pack_le32 (length extra_bytes + 1)
  ok (0x00 ∷ size ++ extra_bytes ++ null)

unfoldable pub channel_open_body : Str → ℕ → ℕ → ℕ → Option Str → ℕ → Result Bytes
unfolding encode_extra_data
channel_open_body channel_name channel_type_id sequence request_id extra_data trailing_byte = do
  kind ← pack_le16 command
  seq ← pack_le16 sequence
  type_id ← pack_le32 channel_type_id
  name ← encode_ascii channel_name
  id ← pack_le16 request_id
  trailing ← byte_of trailing_byte
  extra ← encode_extra_data extra_data
  ok (kind ++ seq ++ type_id ++ name ++ id ++ trailing ++ extra)

unfoldable pub encode_channel_open : Str → ℕ → ℕ → ℕ → Option Str → ℕ → Result Bytes
encode_channel_open channel_name channel_type_id sequence request_id extra_data trailing_byte = do
  body ← channel_open_body channel_name channel_type_id sequence request_id extra_data trailing_byte
  encode_packet 0 body

unfoldable pub channel_open_response_body : ℕ → Result Bytes
channel_open_response_body request_id = do
  kind ← pack_le16 command
  seq ← pack_le16 2
  type_id ← pack_le32 4
  id ← pack_le16 request_id
  ok (kind ++ seq ++ type_id ++ id ++ 0x00 ∷ 0x00 ∷ [])

unfoldable pub encode_channel_open_response : ℕ → Result Bytes
encode_channel_open_response request_id = do
  body ← channel_open_response_body request_id
  encode_packet 0 body

unfoldable pub encode_channel_close : ℕ → ℕ → Result Bytes
encode_channel_close sequence server_channel_id = do
  kind ← pack_le16 end
  seq ← pack_le16 sequence
  encode_packet server_channel_id (kind ++ seq)

-- The message type, the sequence number and the server's channel id.
unfoldable pub parse_command_response : Bytes → Result (ℕ × ℕ × ℕ)
parse_command_response body = do
  msg_type ← unpack_le16 body 0
  seq ← unpack_le16 body 2
  server_channel_id ← if leb 10 (length body) then unpack_le16 body 8 else ok 0
  ok (msg_type, seq, server_channel_id)

unfoldable pub is_json_body : Bytes → Bool
is_json_body [] = false
is_json_body (b ∷ body) = b == b'{'
