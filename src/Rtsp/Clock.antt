-- ===== src/Rtsp/Clock.antt =====
-- `_translate_video_ts` of rtsp_server.py: the time stamps that clients see go forward.
use hass_comelit_intercom_lo.Base.{
  ℕ, ◌+◌, ◌%◌, ◌≤◌, ◌<◌, ◌≡◌, refl, Bool, true, false, Option, none, some, arith, ltb,
  if◌then◌else◌,
}
use hass_comelit_intercom_lo.Rtsp.Server.{Server}
use hass_comelit_intercom_lo.Rtsp.Video.{u32, sub32, translate_video_ts}

-- While no rebase is pending, the last output is the device's last time stamp plus the offset.
abbrev InStep : Option ℕ → Bool → ℕ → ℕ → Type 0
InStep (some last) false out offset = (out ≡ (last + offset) % u32) × (last < u32)
InStep _ _ out offset = Unit

pub record ClockValid (s : Server) : Type 0 where
  pub out_fits : s.video_ts_out < u32
  pub offset_fits : s.video_ts_offset < u32
  pub in_step : InStep s.last_device_ts s.video_ts_rebase_pending s.video_ts_out s.video_ts_offset

-- The clock stays valid, whatever time stamp the device sends.
pub translate_video_ts-ClockValid :
    (device_ts : ℕ) (s : Server)
    → device_ts < u32
    → ClockValid s
    → ClockValid (translate_video_ts device_ts s)
unfolding translate_video_ts
translate_video_ts-ClockValid device_ts s h v = ground arith

-- How far the output goes at a frame: one tick where the offset is computed anew, and otherwise as
-- far as the device's clock went.
abbrev pub advance : Option ℕ → Bool → ℕ → ℕ
advance none pending device_ts = 1
advance (some last) true device_ts = 1
advance (some last) false device_ts =
    if ltb 0x80000000 (sub32 device_ts last) then 1 else sub32 device_ts last

clock_steps :
    (device_ts : ℕ) (s : Server) (last : Option ℕ) (pending : Bool)
    → s.last_device_ts ≡ last
    → s.video_ts_rebase_pending ≡ pending
    → device_ts < u32
    → ClockValid s
    → ((translate_video_ts device_ts s).video_ts_out
        ≡ (s.video_ts_out + advance last pending device_ts) % u32)
      × (advance last pending device_ts ≤ 0x80000000)
unfolding translate_video_ts
clock_steps device_ts s none pending e f h v = (ground arith, omega arith)
clock_steps device_ts s (some last) true e f h v = (ground arith, omega arith)
clock_steps device_ts s (some last) false e f h v = (ground arith, ground arith)

-- From a valid clock, and for any 32-bit time stamp of the device, the output goes forward by
-- `advance`: by exactly as much as the device's clock, or by one tick on the first frame, after a
-- reset, and where the device's clock went back. That is never more than half the circle of 2 ^ 32,
-- so a client never sees the time stamps jump back.
pub translate_video_ts_forward :
    (device_ts : ℕ) (s : Server)
    → device_ts < u32
    → ClockValid s
    → ((translate_video_ts device_ts s).video_ts_out
        ≡ (s.video_ts_out + advance s.last_device_ts s.video_ts_rebase_pending device_ts) % u32)
      × (advance s.last_device_ts s.video_ts_rebase_pending device_ts ≤ 0x80000000)
translate_video_ts_forward device_ts s h v =
    clock_steps device_ts s s.last_device_ts s.video_ts_rebase_pending refl refl h v
