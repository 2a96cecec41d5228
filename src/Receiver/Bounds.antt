-- ===== src/Receiver/Bounds.antt =====
-- What every packet keeps of the receiver: bounded queues, and drops that are counted.
use hass_comelit_intercom_lo.Base.{
  ℕ, ◌+◌, ◌≤◌, ◌≡◌, Bool, true, false, Option, none, some, List, [], ◌∷◌, ◌++◌, arith, length,
  length-append, refl, Returns, drop, take, if◌then◌else◌, ltb, leb, ◌==◌, ◌||◌, Returns-bind,
  Returns-if,
}
use hass_comelit_intercom_lo.Base.Bytes.{Bytes, unpack_be32, unpack_le16}
use hass_comelit_intercom_lo.Base.Packing.{Anything, unpack_le16-Returns}
use hass_comelit_intercom_lo.Protocol.Rtp.{bits}
use hass_comelit_intercom_lo.Receiver.Queues.{
  Receiver, queue_nal, nal_queue_size, rtsp_nal_queue_size, rtsp_audio_queue_size,
  rtsp_rtp_queue_size,
}
use hass_comelit_intercom_lo.Receiver.Nals.{
  log_idr_arrival, process_fua, process_nal, process_audio_rtp, forward_rtp, process_rtp,
}
use hass_comelit_intercom_lo.Receiver.Packets.{receive_tcp_rtp, on_udp_packet}

abbrev pub Within {ℓ} : {A : Type ℓ} → ℕ → Option (List A) → Type 0
Within size none = Unit
Within size (some queue) = length queue ≤ size

-- No queue is longer than its `maxsize`.
pub record IsBounded (r : Receiver) : Type 0 where
  pub nals : length r.nal_queue ≤ nal_queue_size
  pub rtsp_nals : Within rtsp_nal_queue_size r.rtsp_nal_queue
  pub rtsp_audio : Within rtsp_audio_queue_size r.rtsp_audio_queue
  pub rtsp_rtp : Within rtsp_rtp_queue_size r.rtsp_rtp_queue

length-put {ℓ} : {A : Type ℓ} (xs : List A) (x : A) → length (xs ++ x ∷ []) ≡ length xs + 1
length-put xs x = omega (arith, length-append xs (x ∷ []))

queue_nal_bounds :
    (ts : ℕ) (nal : Bytes) (r : Receiver) (rn : Option (List (ℕ × Bytes)))
    (rr : Option (List Bytes))
    → r.rtsp_nal_queue ≡ rn
    → r.rtsp_rtp_queue ≡ rr
    → IsBounded r
    → IsBounded (queue_nal ts nal r)
unfolding queue_nal
queue_nal_bounds ts nal r none rr e f h = ground (arith, length-put r.nal_queue (ts, nal))
queue_nal_bounds ts nal r (some q) none e f h =
    ground (arith, length-put r.nal_queue (ts, nal), length-put q (ts, nal))
queue_nal_bounds ts nal r (some q) (some q') e f h =
    ground (arith, length-put r.nal_queue (ts, nal), length-put q (ts, nal))

queue_nal-IsBounded :
    (ts : ℕ) (nal : Bytes) (r : Receiver) → IsBounded r → IsBounded (queue_nal ts nal r)
queue_nal-IsBounded ts nal r h =
    queue_nal_bounds ts nal r r.rtsp_nal_queue r.rtsp_rtp_queue refl refl h

process_fua-IsBounded :
    (ts b : ℕ) (rest : Bytes) (r : Receiver) → IsBounded r → IsBounded (process_fua ts b rest r)
unfolding process_fua
process_fua-IsBounded ts b [] r h = h
process_fua-IsBounded ts b (c ∷ rest) r h = grind (arith, queue_nal-IsBounded)

log_idr_arrival-IsBounded :
    (b : Bool) (r : Receiver) → IsBounded r → IsBounded (log_idr_arrival b r)
unfolding log_idr_arrival
log_idr_arrival-IsBounded b r h = ground arith

IsBounded-if :
    (b : Bool) {x y : Receiver} → IsBounded x → IsBounded y → IsBounded (if b then x else y)
IsBounded-if true h k = h
IsBounded-if false h k = k

ruleset bounded_rules =
    (IsBounded-if, log_idr_arrival-IsBounded, queue_nal-IsBounded, process_fua-IsBounded)

process_nal-IsBounded :
    (ts : ℕ) (nal : Bytes) (r : Receiver) → IsBounded r → IsBounded (process_nal ts nal r)
unfolding process_nal
process_nal-IsBounded ts [] r h = h
process_nal-IsBounded ts (b ∷ rest) r h = search bounded_rules

process_audio_rtp-IsBounded :
    (rtp : Bytes) (r : Receiver) (q : Option (List Bytes))
    → r.rtsp_audio_queue ≡ q
    → IsBounded r
    → IsBounded (process_audio_rtp rtp r)
unfolding process_audio_rtp
process_audio_rtp-IsBounded rtp r none e h = ground arith
process_audio_rtp-IsBounded rtp r (some q) e h = ground (arith, length-put q (drop 12 rtp))

forward_rtp-IsBounded :
    (rtp : Bytes) (r : Receiver) (q : Option (List Bytes))
    → r.rtsp_rtp_queue ≡ q
    → IsBounded r
    → IsBounded (forward_rtp rtp r)
unfolding forward_rtp
forward_rtp-IsBounded rtp r none e h = ground arith
forward_rtp-IsBounded rtp r (some q) e h = ground (arith, length-put q rtp)

process_rtp-IsBounded :
    (rtp : Bytes) (r : Receiver)
    → 12 ≤ length rtp
    → IsBounded r
    → Returns IsBounded (process_rtp rtp r)
unfolding process_rtp unpack_be32
process_rtp-IsBounded (b0 ∷ b1 ∷ b2 ∷ b3 ∷ b4 ∷ b5 ∷ b6 ∷ b7 ∷ rest) r long h =
    Returns-if IsBounded (bits b0 6 2 == 2) _ _
      (λ _.
        Returns-if IsBounded (bits b1 0 7 == 0 || bits b1 0 7 == 8) _ _
          (λ _. process_audio_rtp-IsBounded _ r _ refl h)
          (λ _. process_nal-IsBounded _ _ _ (forward_rtp-IsBounded _ r _ refl h)))
      (λ _. h)
process_rtp-IsBounded rtp r long h = absurd (omega arith)

-- A packet from the RTPC2 channel, of any bytes, is handled without an error, and keeps every queue
-- within its size.
pub receive_tcp_rtp-IsBounded :
    (packet : Bytes) (r : Receiver) → IsBounded r → Returns IsBounded (receive_tcp_rtp packet r)
unfolding receive_tcp_rtp
receive_tcp_rtp-IsBounded packet r h =
    Returns-if IsBounded (ltb (length packet) 12) _ _ (λ _. h)
      (λ e. process_rtp-IsBounded packet _ (ground arith) (ground arith))

-- A datagram, of any bytes, is handled without an error, and keeps every queue within its size.
pub on_udp_packet-IsBounded :
    (packet : Bytes) (r : Receiver) → IsBounded r → Returns IsBounded (on_udp_packet packet r)
unfolding on_udp_packet
on_udp_packet-IsBounded packet r h =
    Returns-if IsBounded (ltb (length packet) 20) _ _ (λ _. h)
      λ e.
        Returns-bind Anything IsBounded (unpack_le16 packet 4) _
          (unpack_le16-Returns packet 4 (ground arith))
          λ id _.
            Returns-bind Anything IsBounded (unpack_le16 packet 2) _
              (unpack_le16-Returns packet 2 (ground arith))
              λ len _.
                Returns-if IsBounded (id == r.media_req_id) _ _
                  (λ _.
                    Returns-if IsBounded (leb 13 (length (take len (drop 8 packet)))) _ _
                      (λ l.
                        process_rtp-IsBounded (take len (drop 8 packet)) _ (ground arith)
                          (ground arith))
                      (λ _. ground arith))
                  (λ _. h)
