-- ===== src/Rtsp/Feeds.antt =====
-- rtsp_server.py: the rounds of the feed loops. `_video_feed_loop`, which has its own copy of the
-- time-stamp translation, the waits of `_video_rtp_passthrough_loop`, and `_rtcp_sr_loop`.
use hass_comelit_intercom_lo.Base.{
  ℕ, ◌+◌, ◌%◌, ◌≡◌, refl, sym, ap, ◌∙◌, Bool, true, false, ◌&&◌, not, ◌==◌, Option, none, some,
  List, [], ◌∷◌, Result, ok, ◌>>=◌, ltb, leb, if◌then◌else◌, arith, fun_ext,
}
use hass_comelit_intercom_lo.Base.Bytes.{Bytes}
use hass_comelit_intercom_lo.Protocol.Rtp.{bits}
use hass_comelit_intercom_lo.Rtsp.Clients.{TcpClient}
use hass_comelit_intercom_lo.Rtsp.Server.{Server}
use hass_comelit_intercom_lo.Rtsp.Rtcp.{report}
use hass_comelit_intercom_lo.Rtsp.Video.{
  u32, sub32, translated_offset, translate_video_ts, cache_parameter_sets, send_h264, pass_through,
  strip_start_code, feed_nal, drain, drain_nal_queue_fallback,
}

-- The rebase in `_video_feed_loop`.
unfoldable pub rebase_inline : Option ℕ → ℕ → Server → Server
rebase_inline none device_ts s = record s {
  video_ts_offset = sub32 (s.video_ts_out + 1) device_ts;
  video_ts_rebase_pending = false;
}
rebase_inline (some last) device_ts s =
    if s.video_ts_rebase_pending
    then record s {
      video_ts_offset = sub32 (s.video_ts_out + 1) device_ts;
      video_ts_rebase_pending = false;
    }
    else if ltb 0x80000000 (sub32 device_ts last)
    then record s { video_ts_offset = sub32 (s.video_ts_out + 1) device_ts }
    else s

unfoldable pub translate_inline : ℕ → Server → Server
unfolding rebase_inline
translate_inline device_ts s =
    let s' = rebase_inline s.last_device_ts device_ts s in
    record s' {
      last_device_ts = some device_ts;
      video_ts_out = (device_ts + s'.video_ts_offset) % u32;
    }

-- One NAL unit of `_video_feed_loop`, without its start code.
unfoldable pub video_feed : Bytes → ℕ → Server → Result Server
unfolding translate_inline
video_feed [] device_ts s = ok s
video_feed (b ∷ nal) device_ts s =
    send_h264 (b ∷ nal) (translate_inline device_ts (cache_parameter_sets (bits b 0 5) (b ∷ nal) s))

-- The rounds of `_video_feed_loop` over the units that are queued.
unfoldable pub video_feed_all : List (ℕ × Bytes) → Server → Result Server
unfolding video_feed
video_feed_all [] s = ok s
video_feed_all ((device_ts, nal) ∷ queue) s = do
  s' ← video_feed (strip_start_code nal) device_ts (record s { nal_queue = queue })
  video_feed_all queue s'

abbrev pub is_none_left : List (ℕ × Bytes) → Bool
is_none_left [] = true
is_none_left (unit ∷ queue) = false

-- A wait of `_video_rtp_passthrough_loop` that brings nothing, with the number of those before it.
unfoldable pub pass_through_timeout : ℕ → Server → Result (ℕ × Server)
pass_through_timeout fallback_count s =
    let count : ℕ = fallback_count + 1 in
    if leb 3 count && not (is_none_left s.nal_queue)
    then (do s' ← drain_nal_queue_fallback s; ok (count, s'))
    else ok (count, s)

unfoldable pub pass_through_next : List Bytes → ℕ → Server → Result (ℕ × Server)
unfolding pass_through_timeout
pass_through_next [] fallback_count s = pass_through_timeout fallback_count s
pass_through_next (rtp ∷ queue) fallback_count s = do
  s' ← pass_through rtp (record s { rtp_queue = queue })
  ok (0, s')

-- A round of the loop, with its count of waits that have brought nothing.
unfoldable pub pass_through_round : ℕ → Server → Result (ℕ × Server)
unfolding pass_through_next
pass_through_round fallback_count s =
    if s.running then pass_through_next s.rtp_queue fallback_count s else ok (fallback_count, s)

abbrev pub has_listener : List TcpClient → Option (List ℕ) → Bool
has_listener [] none = false
has_listener _ _ = true

-- `_rtcp_sr_loop`: whether it still waits for the first packet, and a round behind that.
unfoldable pub awaits_first_packet : Server → Bool
awaits_first_packet s = s.running && (s.video_pkt_count == 0 && s.audio_pkt_count == 0)

unfoldable pub rtcp_sr_round : ℕ → ℕ → Server → Result Server
rtcp_sr_round secs frac s =
    if s.running && has_listener s.active_clients s.udp_host then report secs frac s else ok s

-- Both copies of the translation, from a last time stamp.
rebase_inline_lem :
    (last : Option ℕ) (device_ts : ℕ) (s : Server)
    → let s' = rebase_inline last device_ts s in
      (s'.video_ts_offset ≡ translated_offset last s.video_ts_rebase_pending device_ts s)
      × (s' ≡ record s { video_ts_offset = s'.video_ts_offset; video_ts_rebase_pending = false })
unfolding rebase_inline translated_offset
rebase_inline_lem none device_ts s = (refl, refl)
rebase_inline_lem (some last) device_ts s = ground arith

translate_inline_lem :
    (device_ts : ℕ) (s : Server) → translate_inline device_ts s ≡ translate_video_ts device_ts s
unfolding translate_inline translate_video_ts
translate_inline_lem device_ts s =
    let (offset, rest) = rebase_inline_lem s.last_device_ts device_ts s in
    ap
      (λ (x : Server). record x {
        last_device_ts = some device_ts;
        video_ts_out = (device_ts + x.video_ts_offset) % u32;
      })
      rest
    ∙ ap
        (λ (o : ℕ). record s {
          video_ts_offset = o;
          video_ts_rebase_pending = false;
          last_device_ts = some device_ts;
          video_ts_out = (device_ts + o) % u32;
        })
        offset

video_feed_lem :
    (nal : Bytes) (device_ts : ℕ) (s : Server)
    → feed_nal nal device_ts s ≡ video_feed nal device_ts s
unfolding video_feed feed_nal
video_feed_lem [] device_ts s = refl
video_feed_lem (b ∷ nal) device_ts s =
    ap (send_h264 (b ∷ nal)) (sym (translate_inline_lem device_ts _))

drain-video_feed_all :
    (queue : List (ℕ × Bytes)) (s : Server) → drain queue s ≡ video_feed_all queue s
unfolding drain video_feed_all
drain-video_feed_all [] s = refl
drain-video_feed_all ((device_ts, nal) ∷ queue) s =
    ap (λ r. r >>= drain queue) (video_feed_lem (strip_start_code nal) device_ts _)
    ∙ ap (λ f. video_feed (strip_start_code nal) device_ts (record s { nal_queue = queue }) >>= f)
        (fun_ext (drain-video_feed_all queue))

-- The fallback of the pass-through loop sends what the rounds of `_video_feed_loop` would send for the
-- queued NAL units: the two copies of the time-stamp translation agree.
pub drain_nal_queue_fallback-video_feed_all :
    (s : Server) → drain_nal_queue_fallback s ≡ video_feed_all s.nal_queue s
unfolding drain_nal_queue_fallback
drain_nal_queue_fallback-video_feed_all s = drain-video_feed_all s.nal_queue s
