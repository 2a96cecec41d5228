-- ===== src/Receiver/Failures.antt =====
-- When `_decode_loop` of rtp_receiver.py gives up.
use hass_comelit_intercom_lo.Base.{
  ℕ, zero, suc, ◌+◌, ◌≤◌, ◌≡◌, refl, sym, ◌∙◌, ap, Bool-cases, inl, inr, Bool, true, false, ◌||◌,
  not, List, [], ◌∷◌, ◌≢◌, ◌&&◌, All, if-cases, length, arith, if◌then◌else◌,
}
use hass_comelit_intercom_lo.Base.Bytes.{Bytes}
use hass_comelit_intercom_lo.Receiver.Queues.{Receiver}
use hass_comelit_intercom_lo.Receiver.Decode.{
  decode_next, decode_round, decode_rounds, max_consecutive_errors, Outcome, frames, invalid_data,
  failed, Decoder, jpegs, show_all, after_decode,
}

-- The outcomes begin with so many failures.
pub fail_first : ℕ → List Outcome → Bool
fail_first zero os = true
fail_first (suc n) [] = false
fail_first (suc n) (failed ∷ os) = fail_first n os
fail_first (suc n) (frames fs ∷ os) = false
fail_first (suc n) (invalid_data ∷ os) = false

-- Somewhere so many failures follow one another.
pub fail_in_row : ℕ → List Outcome → Bool
unfolding fail_first
fail_in_row n [] = fail_first n []
fail_in_row n (o ∷ os) = fail_first n (o ∷ os) || fail_in_row n os

pub decode_all : List Outcome → Decoder → Decoder
decode_all [] d = d
decode_all (o ∷ os) d =
    let rest = decode_all os (after_decode o d) in if d.decoding then rest else d

fail_first_fewer :
    (m n : ℕ) (os : List Outcome) → m ≤ n → fail_first n os ≡ true → fail_first m os ≡ true
unfolding fail_first
fail_first_fewer zero n os h e = refl
fail_first_fewer (suc m) zero os h e = absurd (omega arith)
fail_first_fewer (suc m) (suc n) [] h e = e
fail_first_fewer (suc m) (suc n) (failed ∷ os) h e = fail_first_fewer m n os (omega arith) e
fail_first_fewer (suc m) (suc n) (frames fs ∷ os) h e = cc
fail_first_fewer (suc m) (suc n) (invalid_data ∷ os) h e = cc

show_all-decoding : (js : List Bytes) (d : Decoder) → (show_all js d).decoding ≡ d.decoding
unfolding show_all
show_all-decoding [] d = refl
show_all-decoding (j ∷ js) d = show_all-decoding js _

decode_all_ended : (os : List Outcome) (d : Decoder) → d.decoding ≡ false → decode_all os d ≡ d
unfolding decode_all
decode_all_ended [] d h = refl
decode_all_ended (o ∷ os) d h = ground arith

row_of_first : (n : ℕ) (os : List Outcome) → fail_first n os ≡ true → fail_in_row n os ≡ true
unfolding fail_in_row
row_of_first n [] h = h
row_of_first n (o ∷ os) h = rw h refl

-- With so many failures missing, the loop ends within these outcomes.
gives_up : ℕ → List Outcome → Bool
gives_up zero os = true
gives_up (suc m) [] = false
gives_up (suc m) (failed ∷ os) = gives_up m os
gives_up (suc m) (frames fs ∷ os) = gives_up max_consecutive_errors os
gives_up (suc m) (invalid_data ∷ os) = gives_up max_consecutive_errors os

gives_up-eq :
    (m : ℕ) (os : List Outcome) → m ≤ 5 → gives_up m os ≡ (fail_first m os || fail_in_row 5 os)
unfolding gives_up fail_first fail_in_row
gives_up-eq zero os h = refl
gives_up-eq (suc m) [] h = refl
gives_up-eq (suc m) (failed ∷ os) h = ground (arith, gives_up-eq m os, fail_first_fewer m 4 os)
gives_up-eq (suc m) (frames fs ∷ os) h = ground (arith, gives_up-eq 5 os, row_of_first 5 os)
gives_up-eq (suc m) (invalid_data ∷ os) h = ground (arith, gives_up-eq 5 os, row_of_first 5 os)

decode_all-gives_up :
    (os : List Outcome) (m : ℕ) (d : Decoder)
    → d.decoding ≡ true
    → d.consecutive_errors + suc m ≡ 5
    → (decode_all os d).decoding ≡ not (gives_up (suc m) os)
unfolding decode_all gives_up after_decode
decode_all-gives_up [] m d h k = h
decode_all-gives_up (frames fs ∷ os) m d h k =
    let e = record (show_all (jpegs fs) d) { consecutive_errors = 0 } in
    ground (arith, decode_all-gives_up os 4 e (show_all-decoding (jpegs fs) d ∙ h))
decode_all-gives_up (invalid_data ∷ os) m d h k =
    ground (arith, decode_all-gives_up os 4 (record d { consecutive_errors = 0 }) h)
decode_all-gives_up (failed ∷ os) zero d h k =
    ground (arith, decode_all_ended os (after_decode failed d))
decode_all-gives_up (failed ∷ os) (suc m) d h k =
    ground (
      arith,
      decode_all-gives_up os m (record d { consecutive_errors = d.consecutive_errors + 1 }) h,
    )

decode_all_ends :
    (os : List Outcome) (d : Decoder)
    → d.decoding ≡ true
    → d.consecutive_errors ≡ 0
    → (decode_all os d).decoding ≡ not (fail_in_row max_consecutive_errors os)
decode_all_ends os d h k =
    decode_all-gives_up os 4 d h (omega arith)
    ∙ ap not (gives_up-eq 5 os (omega arith) ∙ ground (arith, row_of_first 5 os))

show_all-codec :
    (js : List Bytes) (s : List Bytes) (d : Decoder)
    → show_all js (record d { codec = s }) ≡ record (show_all js d) { codec = s }
unfolding show_all
show_all-codec [] s d = refl
show_all-codec (j ∷ js) s d = show_all-codec js s _

after_decode-codec :
    (o : Outcome) (s : List Bytes) (d : Decoder)
    → after_decode o (record d { codec = s }) ≡ record (after_decode o d) { codec = s }
unfolding after_decode
after_decode-codec (frames fs) s d =
    ap (λ (x : Decoder). record x { consecutive_errors = 0 }) (show_all-codec (jpegs fs) s d)
after_decode-codec invalid_data s d = refl
after_decode-codec failed s d = refl

decode_all-codec :
    (os : List Outcome) (s : List Bytes) (d : Decoder)
    → (decode_all os (record d { codec = s })).decoding ≡ (decode_all os d).decoding
unfolding decode_all
decode_all-codec [] s d = refl
decode_all-codec (o ∷ os) s d = go d.decoding (
    ap (λ x. (decode_all os x).decoding) (after_decode-codec o s d)
    ∙ decode_all-codec os s (after_decode o d))
  where
    go :
        (b : Bool)
        → (decode_all os (after_decode o (record d { codec = s }))).decoding
          ≡ (decode_all os (after_decode o d)).decoding
        → Decoder.decoding (
            if b
            then decode_all os (after_decode o (record d { codec = s }))
            else record d { codec = s })
          ≡ Decoder.decoding (if b then decode_all os (after_decode o d) else d)
    go true e = e
    go false e = refl

-- What the decoder makes of the units in a queue, none of which is empty, behind those it was given.
abbrev pub outcomes : (List Bytes → Bytes → Outcome) → List Bytes → List (ℕ × Bytes) → List Outcome
outcomes decode given [] = []
outcomes decode given ((ts, nal) ∷ queue) = decode given nal ∷ outcomes decode (nal ∷ given) queue

abbrev pub IsUnit : ℕ × Bytes → Type 0
IsUnit (ts, nal) = nal ≢ []

if_true : {A : Type 0} (b : Bool) (x y : A) → b ≡ true → (if b then x else y) ≡ x
if_true true x y h = refl
if_true false x y h = cc

module _ (decode : List Bytes → Bytes → Outcome) where
  decode_round_next :
      (ts b : ℕ) (nal : Bytes) (queue : List (ℕ × Bytes)) (r : Receiver) (d : Decoder)
      → r.nal_queue ≡ (ts, b ∷ nal) ∷ queue
      → r.running ≡ true
      → d.decoding ≡ true
      → decode_round decode r d ≡ (
        record r { nal_queue = queue },
        after_decode (decode d.codec (b ∷ nal)) (record d { codec = (b ∷ nal) ∷ d.codec }),
      )
  unfolding decode_round
  decode_round_next ts b nal queue r d e run h = simp (e) (
      if_true (r.running && d.decoding) (decode_next decode ((ts, b ∷ nal) ∷ queue) r d)
        (r, record d { decoding = false }) (ground arith))

  decode_round_ended :
      (r : Receiver) (d : Decoder)
      → d.decoding ≡ false
      → (decode_round decode r d).1.decoding ≡ false
  unfolding decode_round
  decode_round_ended r d h =
      if-cases (λ now. now.1.decoding ≡ false) (r.running && d.decoding)
        (decode_next decode r.nal_queue r d) (r, record d { decoding = false })
        (λ both. ground arith) (λ other. refl)

  decode_rounds_ended :
      (n : ℕ) (r : Receiver) (d : Decoder)
      → d.decoding ≡ false
      → (decode_rounds decode n r d).1.decoding ≡ false
  unfolding decode_rounds
  decode_rounds_ended zero r d h = h
  decode_rounds_ended (suc n) r d h = decode_rounds_ended n _ _ (decode_round_ended r d h)

decode_rounds-decode_all :
    (decode : List Bytes → Bytes → Outcome) (queue : List (ℕ × Bytes)) (r : Receiver) (d : Decoder)
    → r.nal_queue ≡ queue
    → r.running ≡ true
    → All IsUnit queue
    → (decode_rounds decode (length queue) r d).1.decoding
      ≡ (decode_all (outcomes decode d.codec queue) d).decoding
unfolding decode_rounds decode_all decode_round
decode_rounds-decode_all decode [] r d e run units = refl
decode_rounds-decode_all decode ((ts, []) ∷ queue) r d e run units = absurd (units.0 refl)
decode_rounds-decode_all decode ((ts, b ∷ nal) ∷ queue) r d e run units =
    elim (Bool-cases d.decoding) [
      | inl going ↦
          let o = decode d.codec (b ∷ nal) in
          let d0 = record d { codec = (b ∷ nal) ∷ d.codec } in
          let d' = after_decode o d0 in
          let rest = outcomes decode ((b ∷ nal) ∷ d.codec) queue in
          ap (λ now. (decode_rounds decode (length queue) now.0 now.1).1.decoding)
            (decode_round_next decode ts b nal queue r d e run going)
          ∙ decode_rounds-decode_all decode queue (record r { nal_queue = queue }) d' refl run
              units.1
          ∙ ap (λ (x : Decoder). (decode_all (outcomes decode x.codec queue) d').decoding)
              (after_decode-codec o ((b ∷ nal) ∷ d.codec) d)
          ∙ ap (λ x. (decode_all rest x).decoding) (after_decode-codec o ((b ∷ nal) ∷ d.codec) d)
          ∙ decode_all-codec rest ((b ∷ nal) ∷ d.codec) (after_decode o d)
          ∙ ap (λ (x : Decoder). x.decoding) (sym (if_true d.decoding _ d going))
      | inr ended ↦
          decode_rounds_ended decode (suc (length queue)) r d ended
          ∙ sym (
              ap (λ (x : Decoder). x.decoding)
                (decode_all_ended (outcomes decode d.codec ((ts, b ∷ nal) ∷ queue)) d ended)
              ∙ ended)
    ]

-- From its start on a queue of units, the loop gives up exactly if somewhere five of them in a row
-- have failed: a unit that is decoded, and one of invalid data, begin the count anew.
pub decode_rounds_ends :
    (decode : List Bytes → Bytes → Outcome) (r : Receiver) (d : Decoder)
    → r.running ≡ true
    → All IsUnit r.nal_queue
    → d.decoding ≡ true
    → d.consecutive_errors ≡ 0
    → (decode_rounds decode (length r.nal_queue) r d).1.decoding
      ≡ not (fail_in_row max_consecutive_errors (outcomes decode d.codec r.nal_queue))
decode_rounds_ends decode r d run units h k =
    decode_rounds-decode_all decode r.nal_queue r d refl run units
    ∙ decode_all_ends (outcomes decode d.codec r.nal_queue) d h k
