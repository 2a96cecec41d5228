-- ===== src/Rtsp/Video.antt =====
-- rtsp_server.py: the video path. `_translate_video_ts`, `_send_h264` with its FU-A fragments, one
-- round of `_video_rtp_passthrough_loop` and of `_drain_nal_queue_fallback`, and `_audio_feed_loop`'s.
use hass_comelit_intercom_lo.Base.{
  ℕ, zero, suc, ◌+◌, ◌-◌, ◌%◌, bit_and, bit_or, ◌==◌, Bool, true, false, Option, none, some, List,
  [], ◌∷◌, ◌++◌, Result, ok, ◌>>=◌, ltb, leb, if◌then◌else◌, length, take, drop,
}
use hass_comelit_intercom_lo.Base.Bytes.{Bytes, pack_byte, pack_be16, pack_be32, unpack_be32}
use hass_comelit_intercom_lo.Protocol.Rtp.{build_rtp, bits}
use hass_comelit_intercom_lo.Rtsp.Server.{Server, video_ssrc, audio_ssrc, broadcast_rtp}

abbrev pub u32 : ℕ
u32 = 4294967296

abbrev pub max_rtp_payload : ℕ
max_rtp_payload = 1400

-- (a - b) & 0xFFFFFFFF, for b below 2 ** 32
abbrev pub sub32 : ℕ → ℕ → ℕ
sub32 a b = (a + u32 - b) % u32

-- The offset that the next time stamp is translated by. It is computed anew on the first frame, after
-- `reset`, and where the device's clock went back.
unfoldable pub translated_offset : Option ℕ → Bool → ℕ → Server → ℕ
translated_offset none pending device_ts s = sub32 (s.video_ts_out + 1) device_ts
translated_offset (some last) true device_ts s = sub32 (s.video_ts_out + 1) device_ts
translated_offset (some last) false device_ts s =
    if ltb 0x80000000 (sub32 device_ts last)
    then sub32 (s.video_ts_out + 1) device_ts
    else s.video_ts_offset

unfoldable pub translate_video_ts : ℕ → Server → Server
unfolding translated_offset
translate_video_ts device_ts s =
    let offset : ℕ = translated_offset s.last_device_ts s.video_ts_rebase_pending device_ts s in
    record s {
      video_ts_offset = offset;
      video_ts_rebase_pending = false;
      last_device_ts = some device_ts;
      video_ts_out = (device_ts + offset) % u32;
    }

-- One packet of `_send_h264`: `_build_rtp`, the sequence number, the broadcast and the counters.
unfoldable pub send_video : Bytes → Bool → Server → Result Server
send_video payload marker s = do
  packet ← build_rtp 96 s.video_seq s.video_ts_out video_ssrc payload marker
  s' ← broadcast_rtp packet true (record s { video_seq = (s.video_seq + 1) % 65536 })
  ok (record s' {
    video_pkt_count = s'.video_pkt_count + 1;
    video_octet_count = s'.video_octet_count + length payload;
    last_video_rtp_ts = s'.video_ts_out;
  })

abbrev pub is_empty : Bytes → Bool
is_empty [] = true
is_empty (b ∷ bs) = false

-- The `while` loop: the fragments of `payload`, each with the marker bit of its packet.
unfoldable pub fragment_loop : ℕ → ℕ → ℕ → Bytes → Bool → List (Bytes × Bool)
fragment_loop zero fu_indicator nal_type payload first = []
fragment_loop (suc fuel) fu_indicator nal_type payload first =
    let chunk : Bytes = take (max_rtp_payload - 2) payload in
    let rest : Bytes = drop (max_rtp_payload - 2) payload in
    let last : Bool = is_empty rest in
    let fu_header : ℕ = (if first then 0x80 else 0x00) + (if last then 0x40 else 0x00) + nal_type in
    let others = fragment_loop fuel fu_indicator nal_type rest false in
    if is_empty payload then [] else (fu_indicator ∷ fu_header ∷ chunk, last) ∷ others

-- A round takes 1398 bytes or all of them, so as many rounds as there are bytes are enough.
unfoldable pub fragments : ℕ → Bytes → List (Bytes × Bool)
unfolding fragment_loop
fragments nal_header payload =
    fragment_loop (length payload) (bit_or (bit_and nal_header 0xE0) 28) (bits nal_header 0 5)
      payload true

unfoldable pub send_all : List (Bytes × Bool) → Server → Result Server
send_all [] s = ok s
send_all ((payload, marker) ∷ rest) s = do s' ← send_video payload marker s; send_all rest s'

-- The packets of one NAL unit. The callers never pass an empty one.
unfoldable pub packetize : Bytes → List (Bytes × Bool)
packetize [] = ([], true) ∷ []
packetize (nal_header ∷ payload) =
    if leb (length (nal_header ∷ payload)) max_rtp_payload
    then (nal_header ∷ payload, true) ∷ []
    else fragments nal_header payload

unfoldable pub send_h264 : Bytes → Server → Result Server
send_h264 nal_data s = send_all (packetize nal_data) s

-- A single NAL unit that is a parameter set is kept for later clients.
unfoldable pub cache_parameter_sets : ℕ → Bytes → Server → Server
cache_parameter_sets nal_type payload s =
    if nal_type == 7
    then record s { latest_sps = payload }
    else if nal_type == 8
    then record s { latest_pps = payload }
    else s

-- The device's packet under our header: its first byte and its marker bit stay, and the payload type
-- becomes 96.
unfoldable pub forward_packet : ℕ → ℕ → Bytes → Server → Result Server
forward_packet byte0 byte1 payload s = do
  first ← pack_byte byte0
  second ← pack_byte (bit_and byte1 0x80 + 96)
  number ← pack_be16 s.video_seq
  time ← pack_be32 s.video_ts_out
  source ← pack_be32 video_ssrc
  let packet : Bytes = first ++ second ++ number ++ time ++ source ++ payload
  s' ← broadcast_rtp packet true (record s { video_seq = (s.video_seq + 1) % 65536 })
  ok (record s' {
    video_pkt_count = s'.video_pkt_count + 1;
    video_octet_count = s'.video_octet_count + length payload;
    last_video_rtp_ts = s'.video_ts_out;
  })

-- The parameter sets are kept from packets with more than one byte of payload.
unfoldable pub cache_payload : ℕ → Bytes → Server → Server
unfolding cache_parameter_sets
cache_payload c rest s =
    if ltb 1 (length (c ∷ rest)) then cache_parameter_sets (bits c 0 5) (c ∷ rest) s else s

-- One packet of `_video_rtp_passthrough_loop`: one of up to 12 bytes is dropped.
unfoldable pub pass_through : Bytes → Server → Result Server
pass_through (byte0 ∷ byte1 ∷ b2 ∷ b3 ∷ b4 ∷ b5 ∷ b6 ∷ b7 ∷ b8 ∷ b9 ∷ b10 ∷ b11 ∷ c ∷ rest) s = do
  device_ts ← unpack_be32 (b4 ∷ b5 ∷ b6 ∷ b7 ∷ []) 0
  forward_packet byte0 byte1 (c ∷ rest) (translate_video_ts device_ts (cache_payload c rest s))
pass_through _ s = ok s

-- The start code, of four bytes or of three, is taken off.
unfoldable pub strip_start_code : Bytes → Bytes
strip_start_code (zero ∷ zero ∷ zero ∷ suc zero ∷ nal) = nal
strip_start_code (zero ∷ zero ∷ suc zero ∷ nal) = nal
strip_start_code nal = nal

-- One NAL unit of `_drain_nal_queue_fallback`.
unfoldable pub feed_nal : Bytes → ℕ → Server → Result Server
feed_nal [] device_ts s = ok s
feed_nal (b ∷ nal) device_ts s =
    send_h264 (b ∷ nal)
      (translate_video_ts device_ts (cache_parameter_sets (bits b 0 5) (b ∷ nal) s))

unfoldable pub drain : List (ℕ × Bytes) → Server → Result Server
unfolding feed_nal strip_start_code
drain [] s = ok s
drain ((device_ts, nal) ∷ queue) s = do
  s' ← feed_nal (strip_start_code nal) device_ts (record s { nal_queue = queue })
  drain queue s'

unfoldable pub drain_nal_queue_fallback : Server → Result Server
unfolding drain
drain_nal_queue_fallback s = drain s.nal_queue s

-- One round of `_audio_feed_loop` on a payload from the queue, or on silence.
unfoldable pub feed_audio : Bytes → Server → Result Server
feed_audio payload s = do
  packet ← build_rtp 8 s.audio_seq s.audio_ts audio_ssrc payload false
  let s1 = record s {
    audio_seq = (s.audio_seq + 1) % 65536;
    audio_ts = (s.audio_ts + length payload) % u32;
  }
  s2 ← broadcast_rtp packet false s1
  ok (record s2 {
    audio_pkt_count = s2.audio_pkt_count + 1;
    audio_octet_count = s2.audio_octet_count + length payload;
    last_audio_rtp_ts = s2.audio_ts;
  })
