-- ===== src/Rtsp/RoundTrip.antt =====
-- A NAL unit that `_send_h264` of rtsp_server.py packetizes reaches the queue of rtp_receiver.py
-- whole: the fragments' shape, their way through RTP packets, and the NAL unit that comes out.
use hass_comelit_intercom_lo.Base.{
  ℕ, ◌≤◌, ◌<◌, ◌≡◌, refl, leb, Bool, Option, none, some, List, [], ◌∷◌, ◌++◌, ok, arith, length,
  Bool-cases, inl, inr,
}
use hass_comelit_intercom_lo.Base.Bytes.{Bytes, pack_byte, pack_be16, pack_be32, unpack_be32}
use hass_comelit_intercom_lo.Protocol.Rtp.{bits, build_rtp}
use hass_comelit_intercom_lo.Receiver.Queues.{Receiver, queue_nal}
use hass_comelit_intercom_lo.Receiver.Nals.{
  start_code, log_idr_arrival, process_nal, forward_rtp, process_rtp,
}
use hass_comelit_intercom_lo.Rtsp.Video.{packetize}
use hass_comelit_intercom_lo.Rtsp.Fragments.{process_all, finished, noted, process_all-fragments}

-- The same NAL units are queued, and the same number was dropped.
pub record SameNals (a b : Receiver) : Type 0 where
  pub nals : a.nal_queue ≡ b.nal_queue
  pub rtsp_nals : a.rtsp_nal_queue ≡ b.rtsp_nal_queue
  pub drops : a.pyav_nal_drops ≡ b.pyav_nal_drops
  pub rtsp_drops : a.rtsp_nal_drops ≡ b.rtsp_nal_drops

finished-SameNals :
    (ts : ℕ) (b : Bool) (nal : Bytes) (r : Receiver) (q : Option (List (ℕ × Bytes)))
    (p : Option (List Bytes))
    → r.rtsp_nal_queue ≡ q
    → r.rtsp_rtp_queue ≡ p
    → SameNals (finished ts nal (noted ts b r)) (queue_nal ts nal r)
unfolding queue_nal log_idr_arrival
finished-SameNals ts b nal r none p e f = ground arith
finished-SameNals ts b nal r (some q) none e f = ground arith
finished-SameNals ts b nal r (some q) (some p) e f = ground arith

single-SameNals :
    (ts h : ℕ) (payload : Bytes) (r : Receiver) (q : Option (List (ℕ × Bytes)))
    (p : Option (List Bytes))
    → r.rtsp_nal_queue ≡ q
    → r.rtsp_rtp_queue ≡ p
    → 1 ≤ bits h 0 5
    → bits h 0 5 ≤ 23
    → SameNals (process_nal ts (h ∷ payload) r) (queue_nal ts (start_code ++ h ∷ payload) r)
unfolding process_nal queue_nal log_idr_arrival
single-SameNals ts h payload r none p e f lo hi = ground arith
single-SameNals ts h payload r (some q) none e f lo hi = ground arith
single-SameNals ts h payload r (some q) (some p) e f lo hi = ground arith

-- Whatever the receiver was doing, the packets of one NAL unit leave it in the queues, whole and with
-- its start code, exactly as if it were queued at once. For a first byte with a type from 1 to 23
-- and any size.
pub process_all-packetize :
    (ts h : ℕ) (payload : Bytes) (r : Receiver)
    → h < 256
    → 1 ≤ bits h 0 5
    → bits h 0 5 ≤ 23
    → SameNals
        (process_all ts (packetize (h ∷ payload)) r)
        (queue_nal ts (start_code ++ h ∷ payload) r)
unfolding packetize process_all
process_all-packetize ts h [] r lt lo hi = single-SameNals ts h [] r _ _ refl refl lo hi
process_all-packetize ts h (p ∷ ps) r lt lo hi =
    elim (Bool-cases (leb (length (h ∷ p ∷ ps)) 1400)) [
      | inl e ↦ rw e (single-SameNals ts h (p ∷ ps) r _ _ refl refl lo hi)
      | inr e ↦
          rw (e, process_all-fragments ts h p ps r lt (ground arith))
            (finished-SameNals ts _ _ r _ _ refl refl)
    ]

-- A packet that `build_rtp` writes for the video is handled as its payload, once it is passed through.
pub process_rtp-build_rtp :
    (seq ts ssrc : ℕ) (payload packet : Bytes) (marker : Bool) (r : Receiver)
    → build_rtp 96 seq ts ssrc payload marker ≡ ok packet
    → process_rtp packet r ≡ ok (process_nal ts payload (forward_rtp packet r))
unfolding build_rtp process_rtp pack_byte pack_be16 pack_be32 unpack_be32
process_rtp-build_rtp seq ts ssrc payload packet marker r h = ground arith
