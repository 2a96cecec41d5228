-- ===== src/Rtsp/Packets.antt =====
-- The packets that `_send_h264` of rtsp_server.py cuts: their sizes and marker bits.
use hass_comelit_intercom_lo.Base.{
  ℕ, zero, suc, ◌≤◌, ◌≡◌, refl, ap, inl, inr, Bool, true, false, List, [], ◌∷◌, arith, length, drop,
  All, leb, length-take, length-drop, Bool-cases,
}
use hass_comelit_intercom_lo.Base.Bytes.{Bytes}
use hass_comelit_intercom_lo.Rtsp.Video.{fragment_loop, fragments, packetize, max_rtp_payload}
use hass_comelit_intercom_lo.Rtsp.Fragments.{loop_last, loop_more}

-- Exactly the last packet is marked.
abbrev pub OnlyLastMarked : List (Bytes × Bool) → Type 0
OnlyLastMarked [] = ⊥
OnlyLastMarked ((payload, marker) ∷ []) = marker ≡ true
OnlyLastMarked ((payload, marker) ∷ p ∷ ps) = (marker ≡ false) × OnlyLastMarked (p ∷ ps)

abbrev pub FitsPacket : Bytes × Bool → Type 0
FitsPacket (payload, marker) = length payload ≤ max_rtp_payload

pub record IsPacketized (ps : List (Bytes × Bool)) : Type 0 where
  pub sizes : All FitsPacket ps
  pub markers : OnlyLastMarked ps

IsPacketized-more :
    (payload : Bytes) (ps : List (Bytes × Bool))
    → length payload ≤ max_rtp_payload
    → IsPacketized ps
    → IsPacketized ((payload, false) ∷ ps)
IsPacketized-more payload [] fits h = absurd h.markers
IsPacketized-more payload (p ∷ ps) fits h = record {
  sizes = (fits, h.sizes);
  markers = (refl, h.markers);
}

last_chunk : (bs : Bytes) → drop 1398 bs ≡ [] → length bs ≤ 1398
last_chunk bs e = omega (arith, length-drop 1398 bs, ap length e)

fragment_step :
    (fuel ind ty p : ℕ) (ps rest : Bytes) (first : Bool)
    → drop 1398 (p ∷ ps) ≡ rest
    → length (p ∷ ps) ≤ suc fuel
    → ((q : ℕ) (qs : Bytes)
        → length (q ∷ qs) ≤ fuel
        → IsPacketized (fragment_loop fuel ind ty (q ∷ qs) false))
    → IsPacketized (fragment_loop (suc fuel) ind ty (p ∷ ps) first)
fragment_step fuel ind ty p ps [] first e h others =
    rw (loop_last fuel ind ty p ps first e)
      (record { sizes = (omega (arith, last_chunk (p ∷ ps) e), tt); markers = refl })
fragment_step fuel ind ty p ps (q ∷ qs) first e h others =
    rw (loop_more fuel ind ty p q ps qs first e) (
      IsPacketized-more _ (fragment_loop fuel ind ty (q ∷ qs) false)
        (omega (arith, length-take 1398 (p ∷ ps)))
        (others q qs (omega (arith, h, length-drop 1398 (p ∷ ps), ap length e))))

fragment_loop-IsPacketized :
    (fuel ind ty p : ℕ) (ps : Bytes) (first : Bool)
    → length (p ∷ ps) ≤ fuel
    → IsPacketized (fragment_loop fuel ind ty (p ∷ ps) first)
fragment_loop-IsPacketized zero ind ty p ps first h = absurd (omega arith)
fragment_loop-IsPacketized (suc fuel) ind ty p ps first h =
    fragment_step fuel ind ty p ps _ first refl h
      λ q qs lt. fragment_loop-IsPacketized fuel ind ty q qs false lt

-- A NAL unit of any size is cut into packets with at most 1400 bytes of payload each, of which
-- exactly the last has the marker bit.
pub packetize-IsPacketized : (h : ℕ) (payload : Bytes) → IsPacketized (packetize (h ∷ payload))
unfolding packetize fragments
packetize-IsPacketized h [] = record { sizes = (omega arith, tt); markers = refl }
packetize-IsPacketized h (p ∷ ps) = elim (Bool-cases (leb (length (h ∷ p ∷ ps)) 1400)) [
  | inl e ↦ rw e (record { sizes = (ground (arith, e), tt); markers = refl })
  | inr e ↦ rw e (fragment_loop-IsPacketized (length (p ∷ ps)) _ _ p ps true (omega arith))
]
