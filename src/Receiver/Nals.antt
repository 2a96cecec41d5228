-- ===== src/Receiver/Nals.antt =====
-- rtp_receiver.py: `_process_rtp`, which sorts a packet by its payload type and puts H.264 NAL units
-- that came in fragments (FU-A) together again, and `_process_audio_rtp`.
use hass_comelit_intercom_lo.Base.{
  ℕ, ◌+◌, bit_and, bit_or, ◌==◌, Bool, true, false, ◌&&◌, ◌||◌, Option, none, some, List, [], ◌∷◌,
  ◌++◌, Result, ok, err, struct_error, ◌>>=◌, leb, if◌then◌else◌, drop,
}
use hass_comelit_intercom_lo.Base.Bytes.{Bytes, unpack_be32}
use hass_comelit_intercom_lo.Protocol.Rtp.{bits}
use hass_comelit_intercom_lo.Receiver.Queues.{
  Receiver, queue_nal, put_nowait, rtsp_audio_queue_size, rtsp_rtp_queue_size,
}

abbrev pub start_code : Bytes
start_code = 0 ∷ 0 ∷ 0 ∷ 1 ∷ []

-- Is a byte array not empty, as Python's `if` asks?
abbrev pub truthy : Bytes → Bool
truthy [] = false
truthy (b ∷ bs) = true

-- `_log_idr_arrival`
unfoldable pub log_idr_arrival : Bool → Receiver → Receiver
log_idr_arrival true r = record r { idr_count = r.idr_count + 1 }
log_idr_arrival false r = r

-- The first half of the FU-A branch: a start bit begins a NAL unit anew, other fragments go on with
-- the one that is there.
store_fragment : ℕ → ℕ → ℕ → Bytes → Receiver → Receiver
unfolding log_idr_arrival
store_fragment rtp_ts fu_indicator fu_header fragment r =
    let frag_type : ℕ = bits fu_header 0 5 in
    let nal_ref : ℕ = bit_and fu_indicator 0xE0 in
    if bits fu_header 7 1 == 1
    then log_idr_arrival (frag_type == 5) (record r {
      current_fua_nal = start_code ++ bit_or nal_ref frag_type ∷ fragment;
      current_fua_ts = rtp_ts;
    })
    else if truthy r.current_fua_nal
    then record r { current_fua_nal = r.current_fua_nal ++ fragment }
    else r

-- The second half: an end bit queues the NAL unit, if there is one.
finish_fragment : ℕ → Receiver → Receiver
finish_fragment fu_header r =
    if bits fu_header 6 1 == 1 && truthy r.current_fua_nal
    then record (queue_nal r.current_fua_ts r.current_fua_nal r) { current_fua_nal = [] }
    else r

unfoldable pub process_fua : ℕ → ℕ → Bytes → Receiver → Receiver
unfolding store_fragment finish_fragment
process_fua rtp_ts fu_indicator [] r = r
process_fua rtp_ts fu_indicator (fu_header ∷ fragment) r =
    finish_fragment fu_header (store_fragment rtp_ts fu_indicator fu_header fragment r)

-- `_process_rtp` from `nal_data = rtp[12:]` on.
unfoldable pub process_nal : ℕ → Bytes → Receiver → Receiver
process_nal rtp_ts [] r = r
process_nal rtp_ts (b ∷ rest) r =
    let nal_type : ℕ = bits b 0 5 in
    if nal_type == 7 || nal_type == 8
    then queue_nal rtp_ts (start_code ++ b ∷ rest) r
    else if nal_type == 28
    then process_fua rtp_ts b rest r
    else if leb 1 nal_type && leb nal_type 23
    then queue_nal rtp_ts (start_code ++ b ∷ rest) (log_idr_arrival (nal_type == 5) r)
    else r

-- `_process_audio_rtp`: an empty payload is ignored.
put_audio : Option (List Bytes) → Bytes → Receiver → Receiver
put_audio none payload r = r
put_audio (some queue) payload r = elim (put_nowait rtsp_audio_queue_size payload queue) [
  | none ↦ record r { rtsp_audio_drops = r.rtsp_audio_drops + 1 }
  | some queue' ↦ record r { rtsp_audio_queue = some queue' }
]

unfoldable pub process_audio_rtp : Bytes → Receiver → Receiver
unfolding put_audio
process_audio_rtp rtp r =
    let audio_payload : Bytes = drop 12 rtp in
    if truthy audio_payload
    then put_audio r.rtsp_audio_queue audio_payload
        (record r { audio_packet_count = r.audio_packet_count + 1 })
    else r

-- The pass-through of the whole packet to the RTSP server, where it is attached.
put_rtp : Option (List Bytes) → Bytes → Receiver → Receiver
put_rtp none rtp r = r
put_rtp (some queue) rtp r = elim (put_nowait rtsp_rtp_queue_size rtp queue) [
  | none ↦ record r { rtsp_nal_drops = r.rtsp_nal_drops + 1; first_video_nal_event = true }
  | some queue' ↦ record r { rtsp_rtp_queue = some queue'; first_video_nal_event = true }
]

unfoldable pub forward_rtp : Bytes → Receiver → Receiver
unfolding put_rtp
forward_rtp rtp r = put_rtp r.rtsp_rtp_queue rtp r

-- `_process_rtp`; too short a packet for its header is an error of `struct`, or an index error.
unfoldable pub process_rtp : Bytes → Receiver → Result Receiver
process_rtp (byte0 ∷ byte1 ∷ rest) r =
    let rtp : Bytes = byte0 ∷ byte1 ∷ rest in
    let payload_type : ℕ = bits byte1 0 7 in
    let video : Result Receiver = (do
      rtp_ts ← unpack_be32 rtp 4
      ok (process_nal rtp_ts (drop 12 rtp) (forward_rtp rtp r))) in
    if bits byte0 6 2 == 2
    then (if payload_type == 0 || payload_type == 8 then ok (process_audio_rtp rtp r) else video)
    else ok r
process_rtp _ r = err struct_error
