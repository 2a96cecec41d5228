-- ===== src/Protocol/Rtp.antt =====
-- RTP packets: `decode_rtp_header` of protocol.py, and `_build_rtp` of rtsp_server.py, which writes
-- the packets that it reads.
use hass_comelit_intercom_lo.Base.{
  ℕ, ◌+◌, ◌/◌, ◌%◌, ◌^◌, ◌==◌, Bool, ◌∷◌, ◌++◌, Result, ok, err, value_error, struct_error, ◌>>=◌,
  raise_if, ltb, if◌then◌else◌, length, drop,
}
use hass_comelit_intercom_lo.Base.Bytes.{
  Bytes, pack_byte, pack_be16, pack_be32, unpack_be16, unpack_be32,
}
use hass_comelit_intercom_lo.Protocol.Header.{header_size}

pub record RtpHeader : Type 0 where
  pub version : ℕ
  pub padding : Bool
  pub extension : Bool
  pub csrc_count : ℕ
  pub marker : Bool
  pub payload_type : ℕ
  pub sequence : ℕ
  pub timestamp : ℕ
  pub ssrc : ℕ

-- (byte >> shift) & (2 ** width - 1)
abbrev pub bits : ℕ → ℕ → ℕ → ℕ
bits byte shift width = byte / 2 ^ shift % 2 ^ width

-- The first two bytes of `rtp_data`.
header_fields : Bytes → (ℕ → ℕ → Result (RtpHeader × Bytes)) → Result (RtpHeader × Bytes)
header_fields (byte0 ∷ byte1 ∷ rtp) k = k byte0 byte1
header_fields _ k = err struct_error

unfoldable pub decode_rtp_header : Bytes → Result (RtpHeader × Bytes)
unfolding header_fields
decode_rtp_header packet = raise_if (ltb (length packet) (header_size + 12)) value_error (
    let rtp_data : Bytes = drop header_size packet in
    header_fields rtp_data λ byte0 byte1. do
      sequence ← unpack_be16 rtp_data 2
      timestamp ← unpack_be32 rtp_data 4
      ssrc ← unpack_be32 rtp_data 8
      let header : RtpHeader = record {
        version = bits byte0 6 2;
        padding = bits byte0 5 1 == 1;
        extension = bits byte0 4 1 == 1;
        csrc_count = bits byte0 0 4;
        marker = bits byte1 7 1 == 1;
        payload_type = bits byte1 0 7;
        sequence = sequence;
        timestamp = timestamp;
        ssrc = ssrc;
      }
      ok (header, drop 12 rtp_data))

-- struct.pack("!BBHII", 0x80, (0x80 if marker else 0) | (pt & 0x7F), seq, ts, ssrc) + payload
unfoldable pub build_rtp : ℕ → ℕ → ℕ → ℕ → Bytes → Bool → Result Bytes
build_rtp pt seq ts ssrc payload marker = do
  first ← pack_byte 0x80
  second ← pack_byte ((if marker then 0x80 else 0x00) + pt % 128)
  number ← pack_be16 seq
  time ← pack_be32 ts
  source ← pack_be32 ssrc
  ok (first ++ second ++ number ++ time ++ source ++ payload)
