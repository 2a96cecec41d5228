-- ===== src/Receiver/Decode.antt =====
-- rtp_receiver.py: `_decode_loop`, `get_jpeg_frame` and `wait_for_first_video`. What PyAV makes of a
-- NAL unit, behind the units that its codec was given before, is an argument.
use hass_comelit_intercom_lo.Base.{
  ℕ, zero, suc, ◌+◌, Bool, true, false, ◌&&◌, Option, none, some, List, [], ◌∷◌, ltb, if◌then◌else◌,
}
use hass_comelit_intercom_lo.Base.Bytes.{Bytes}
use hass_comelit_intercom_lo.Receiver.Queues.{Receiver}

abbrev pub max_consecutive_errors : ℕ
max_consecutive_errors = 5

-- The frames of a NAL unit, each as a JPEG where that could be made; `InvalidDataError`; or another
-- exception.
pub data Outcome : Type 0 where
  frames : List (Option Bytes) → Outcome
  invalid_data : Outcome
  failed : Outcome

pub record Decoder : Type 0 where
  -- the units that the codec was given, the last one first
  pub codec : List Bytes
  pub latest_frame : Option Bytes
  pub frame_event : Bool
  pub frame_count : ℕ
  pub consecutive_errors : ℕ
  -- the loop has not ended
  pub decoding : Bool

unfoldable pub init : Decoder
init = record {
  codec = [];
  latest_frame = none;
  frame_event = false;
  frame_count = 0;
  consecutive_errors = 0;
  decoding = true;
}

-- `if jpeg`: no JPEG and an empty one are passed over.
unfoldable pub jpegs : List (Option Bytes) → List Bytes
jpegs [] = []
jpegs (none ∷ rest) = jpegs rest
jpegs (some [] ∷ rest) = jpegs rest
jpegs (some (b ∷ bytes) ∷ rest) = (b ∷ bytes) ∷ jpegs rest

unfoldable pub show_all : List Bytes → Decoder → Decoder
show_all [] d = d
show_all (jpeg ∷ rest) d =
    show_all rest
      (record d { frame_count = d.frame_count + 1; latest_frame = some jpeg; frame_event = true })

unfoldable pub after_decode : Outcome → Decoder → Decoder
unfolding jpegs show_all
after_decode (frames fs) d = record (show_all (jpegs fs) d) { consecutive_errors = 0 }
after_decode invalid_data d = record d { consecutive_errors = 0 }
after_decode failed d =
    let errors : ℕ = d.consecutive_errors + 1 in
    record d {
      consecutive_errors = errors;
      decoding = (if ltb errors max_consecutive_errors then d.decoding else false);
    }

-- One NAL unit. The buffer holds just this unit, and an empty one is not decoded.
unfoldable pub decode_nal : (List Bytes → Bytes → Outcome) → Bytes → Decoder → Decoder
unfolding after_decode
decode_nal decode [] d = d
decode_nal decode (b ∷ nal) d =
    after_decode (decode d.codec (b ∷ nal)) (record d { codec = (b ∷ nal) ∷ d.codec })

unfoldable pub decode_next :
    (List Bytes → Bytes → Outcome) → List (ℕ × Bytes) → Receiver → Decoder → Receiver × Decoder
unfolding decode_nal
decode_next decode [] r d = (r, d)
decode_next decode ((ts, nal) ∷ queue) r d =
    (record r { nal_queue = queue }, decode_nal decode nal d)

-- A round of the loop, which takes the next NAL unit, or none within two seconds.
unfoldable pub decode_round :
    (List Bytes → Bytes → Outcome) → Receiver → Decoder → Receiver × Decoder
unfolding decode_next
decode_round decode r d =
    if r.running && d.decoding
    then decode_next decode r.nal_queue r d
    else (r, record d { decoding = false })

unfoldable pub decode_rounds :
    (List Bytes → Bytes → Outcome) → ℕ → Receiver → Decoder → Receiver × Decoder
unfolding decode_round
decode_rounds decode zero r d = (r, d)
decode_rounds decode (suc n) r d =
    let now = decode_round decode r d in decode_rounds decode n now.0 now.1

-- `get_jpeg_frame`, before its wait, and after it.
unfoldable pub get_jpeg_frame_begin : Decoder → Decoder
get_jpeg_frame_begin d = record d { frame_event = false }

unfoldable pub get_jpeg_frame_end : Decoder → Option Bytes
get_jpeg_frame_end d = d.latest_frame

-- `wait_for_first_video`, as its wait ends.
unfoldable pub wait_for_first_video : Receiver → Bool
wait_for_first_video r = r.first_video_nal_event
