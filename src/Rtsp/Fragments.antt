-- ===== src/Rtsp/Fragments.antt =====
-- The FU-A fragments that `_send_h264` of rtsp_server.py cuts, and how `_process_rtp` of
-- rtp_receiver.py puts them together again.
use hass_comelit_intercom_lo.Base.{
  ℕ, zero, suc, ◌+◌, ◌≤◌, ◌<◌, ◌≡◌, refl, ap, ◌∙◌, bit_and, bit_or, ◌==◌, Bool, true, false, ◌&&◌,
  List, [], ◌∷◌, ◌++◌, arith, if◌then◌else◌, length, take, drop, append_assoc, length-drop,
  take-append-drop, take_of_drop,
}
use native.Mathlib.Nat.{add-zero}
use hass_comelit_intercom_lo.Base.Bits.{each_of, each_of_lem}
use hass_comelit_intercom_lo.Base.Bytes.{Bytes}
use hass_comelit_intercom_lo.Protocol.Rtp.{bits}
use hass_comelit_intercom_lo.Receiver.Queues.{Receiver, queue_nal}
use hass_comelit_intercom_lo.Receiver.Nals.{start_code, log_idr_arrival, process_fua, process_nal}
use hass_comelit_intercom_lo.Rtsp.Video.{fragment_loop, fragments}

-- The receiver after a list of payloads that came with one time stamp.
unfoldable pub process_all : ℕ → List (Bytes × Bool) → Receiver → Receiver
process_all ts [] r = r
process_all ts ((payload, marker) ∷ rest) r = process_all ts rest (process_nal ts payload r)

-- A NAL unit's first byte `h` travels in the two first bytes of a fragment.
abbrev indicator : ℕ → ℕ
indicator h = bit_or (bit_and h 0xE0) 28

header_table :
    each_of
      (λ h. bit_or (bit_and (indicator h) 0xE0) (bits h 0 5) == h && bits (indicator h) 0 5 == 28)
      256
    ≡ true
unfolding each_of
header_table = refl

header_laws :
    (h : ℕ)
    → h < 256
    → (bit_or (bit_and (indicator h) 0xE0) (bits h 0 5) ≡ h) × (bits (indicator h) 0 5 ≡ 28)
header_laws h lt = ground (arith, each_of_lem _ 256 header_table h lt)

loop_nil : (fuel ind ty : ℕ) → fragment_loop fuel ind ty [] false ≡ []
unfolding fragment_loop
loop_nil zero ind ty = refl
loop_nil (suc fuel) ind ty = refl

-- The fragment loop, where the rest of the payload is one fragment, and where it is more.
pub loop_last :
    (fuel ind ty p : ℕ) (ps : Bytes) (first : Bool)
    → drop 1398 (p ∷ ps) ≡ []
    → fragment_loop (suc fuel) ind ty (p ∷ ps) first
      ≡ (ind ∷ ((if first then 0x80 else 0x00) + 0x40 + ty) ∷ p ∷ ps, true) ∷ []
unfolding fragment_loop
loop_last fuel ind ty p ps first e = rw (e, take_of_drop 1397 ps e, loop_nil fuel ind ty)

pub loop_more :
    (fuel ind ty p q : ℕ) (ps qs : Bytes) (first : Bool)
    → drop 1398 (p ∷ ps) ≡ q ∷ qs
    → fragment_loop (suc fuel) ind ty (p ∷ ps) first
      ≡ (ind ∷ ((if first then 0x80 else 0x00) + ty) ∷ take 1398 (p ∷ ps), false)
        ∷ fragment_loop fuel ind ty (q ∷ qs) false
unfolding fragment_loop
loop_more fuel ind ty p q ps qs first e = rw (e, add-zero (if first then 0x80 else 0x00))

-- What a finished NAL unit leaves: it is queued, and none is in progress.
abbrev pub finished : ℕ → Bytes → Receiver → Receiver
finished ts nal r = record (queue_nal ts nal (record r { current_fua_nal = nal })) {
  current_fua_nal = [];
}

-- A fragment that begins no NAL unit, where one was begun.
middle_fragment :
    (ts ind hd b : ℕ) (chunk nal : Bytes) (r : Receiver)
    → bits ind 0 5 ≡ 28
    → bits hd 7 1 ≡ 0
    → bits hd 6 1 ≡ 0
    → r.current_fua_nal ≡ b ∷ nal
    → process_nal ts (ind ∷ hd ∷ chunk) r ≡ record r { current_fua_nal = b ∷ nal ++ chunk }
unfolding process_nal process_fua
middle_fragment ts ind hd b chunk nal r i s e h = ground arith

last_fragment :
    (ts ind hd b : ℕ) (chunk nal : Bytes) (r : Receiver)
    → bits ind 0 5 ≡ 28
    → bits hd 7 1 ≡ 0
    → bits hd 6 1 ≡ 1
    → r.current_fua_nal ≡ b ∷ nal
    → process_nal ts (ind ∷ hd ∷ chunk) r ≡ finished r.current_fua_ts (b ∷ nal ++ chunk) r
unfolding process_nal process_fua
last_fragment ts ind hd b chunk nal r i s e h = ground arith

-- From a receiver with a NAL unit begun, the rest of its fragments finish it.
process_all-loop :
    (fuel ts ind ty b : ℕ) (payload nal : Bytes) (r : Receiver)
    → length payload ≤ fuel
    → 0 < length payload
    → bits ind 0 5 ≡ 28
    → ty < 32
    → r.current_fua_nal ≡ b ∷ nal
    → process_all ts (fragment_loop fuel ind ty payload false) r
      ≡ finished r.current_fua_ts (b ∷ nal ++ payload) r
process_all-loop fuel ts ind ty b [] nal r hf hp i t h = absurd (omega arith)
process_all-loop zero ts ind ty b (p ∷ ps) nal r hf hp i t h = absurd (omega arith)
process_all-loop (suc fuel) ts ind ty b (p ∷ ps) nal r hf hp i t h =
    go (drop 1398 (p ∷ ps)) refl λ pos.
      process_all-loop fuel ts ind ty b (drop 1398 (p ∷ ps)) (nal ++ take 1398 (p ∷ ps))
        (record r { current_fua_nal = b ∷ nal ++ take 1398 (p ∷ ps) })
        (omega (arith, length-drop 1398 (p ∷ ps))) pos i t refl
  where
    go :
        (rest : Bytes)
        → drop 1398 (p ∷ ps) ≡ rest
        → (0 < length (drop 1398 (p ∷ ps))
            → process_all ts
                (fragment_loop fuel ind ty (drop 1398 (p ∷ ps)) false)
                (record r { current_fua_nal = b ∷ nal ++ take 1398 (p ∷ ps) })
              ≡ finished r.current_fua_ts ((b ∷ nal ++ take 1398 (p ∷ ps)) ++ drop 1398 (p ∷ ps)) r)
        → process_all ts (fragment_loop (suc fuel) ind ty (p ∷ ps) false) r
          ≡ finished r.current_fua_ts (b ∷ nal ++ p ∷ ps) r
    go [] e ih = rw (loop_last fuel ind ty p ps false e) (
        unfold process_all in
        last_fragment ts ind (0 + 0x40 + ty) b (p ∷ ps) nal r i (omega arith) (omega arith) h)
    go (q ∷ qs) e ih = rw (loop_more fuel ind ty p q ps qs false e) (
        unfold process_all in
        ap (process_all ts (fragment_loop fuel ind ty (q ∷ qs) false)) (
          middle_fragment ts ind (0 + ty) b (take 1398 (p ∷ ps)) nal r i (omega arith) (omega arith)
            h)
        ∙ rw (← e) (ih (rw e (omega arith)))
        ∙ ap (λ x. finished r.current_fua_ts x r)
            (append_assoc (b ∷ nal) (take 1398 (p ∷ ps)) (drop 1398 (p ∷ ps))
              ∙ ap (λ x. (b ∷ nal) ++ x) (take-append-drop 1398 (p ∷ ps))))

-- The fragment that begins a NAL unit, whatever was in progress.
first_fragment :
    (ts h : ℕ) (chunk : Bytes) (r : Receiver)
    → bit_or (bit_and (indicator h) 0xE0) (bits h 0 5) ≡ h
    → bits (indicator h) 0 5 ≡ 28
    → process_nal ts (indicator h ∷ (0x80 + bits h 0 5) ∷ chunk) r
      ≡ log_idr_arrival
          (bits h 0 5 == 5)
          (record r { current_fua_nal = start_code ++ h ∷ chunk; current_fua_ts = ts })
unfolding process_nal process_fua log_idr_arrival
first_fragment ts h chunk r e i = ground arith

-- A receiver that has seen a NAL unit begin: an IDR slice is counted.
abbrev pub noted : ℕ → Bool → Receiver → Receiver
noted ts is_idr r = log_idr_arrival is_idr (record r { current_fua_ts = ts })

abbrev begun : ℕ → Bool → Bytes → Receiver → Receiver
begun ts is_idr nal r =
    log_idr_arrival is_idr (record r { current_fua_nal = nal; current_fua_ts = ts })

current_fua_nal-begun :
    (ts : ℕ) (b : Bool) (nal : Bytes) (r : Receiver) → (begun ts b nal r).current_fua_nal ≡ nal
unfolding log_idr_arrival
current_fua_nal-begun ts b nal r = ground arith

finished-begun :
    (ts : ℕ) (b : Bool) (nal nal' : Bytes) (r : Receiver)
    → finished (begun ts b nal' r).current_fua_ts nal (begun ts b nal' r)
      ≡ finished ts nal (noted ts b r)
unfolding log_idr_arrival
finished-begun ts true nal nal' r = refl
finished-begun ts false nal nal' r = refl

pub process_all-fragments :
    (ts h p : ℕ) (ps : Bytes) (r : Receiver)
    → h < 256
    → 1398 < length (p ∷ ps)
    → process_all ts (fragments h (p ∷ ps)) r
      ≡ finished ts (start_code ++ h ∷ p ∷ ps) (noted ts (bits h 0 5 == 5) r)
unfolding fragments
process_all-fragments ts h p ps r lt long = go (drop 1398 (p ∷ ps)) refl
  where
    ty : ℕ
    ty = bits h 0 5

    go :
        (rest : Bytes)
        → drop 1398 (p ∷ ps) ≡ rest
        → process_all ts (fragment_loop (suc (length ps)) (indicator h) ty (p ∷ ps) true) r
          ≡ finished ts (start_code ++ h ∷ p ∷ ps) (noted ts (ty == 5) r)
    go [] e = absurd (omega (arith, length-drop 1398 (p ∷ ps), ap length e))
    go (q ∷ qs) e = rw (loop_more (length ps) (indicator h) ty p q ps qs true e) (
        unfold process_all in
        ap (process_all ts (fragment_loop (length ps) (indicator h) ty (q ∷ qs) false))
          (first_fragment ts h (take 1398 (p ∷ ps)) r (header_laws h lt).0 (header_laws h lt).1)
        ∙ process_all-loop (length ps) ts (indicator h) ty 0 (q ∷ qs)
            (0 ∷ 0 ∷ 1 ∷ h ∷ take 1398 (p ∷ ps))
            (begun ts (ty == 5) (start_code ++ h ∷ take 1398 (p ∷ ps)) r)
            (omega (arith, length-drop 1398 (p ∷ ps), ap length e)) (omega arith)
            (header_laws h lt).1 (omega arith)
            (current_fua_nal-begun ts (ty == 5) (start_code ++ h ∷ take 1398 (p ∷ ps)) r)
        ∙ finished-begun ts (ty == 5) (start_code ++ h ∷ (take 1398 (p ∷ ps) ++ q ∷ qs))
            (start_code ++ h ∷ take 1398 (p ∷ ps)) r
        ∙ ap (λ x. finished ts (start_code ++ h ∷ x) (noted ts (ty == 5) r))
            (rw (← e) (take-append-drop 1398 (p ∷ ps))))
