-- ===== src/Receiver/Queues.antt =====
-- rtp_receiver.py: `RtpReceiver.__init__`, `attach_rtsp_queues`, `_queue_nal` and the bounded queues.
use hass_comelit_intercom_lo.Base.{
  ℕ, ◌+◌, Bool, true, false, Option, none, some, List, [], ◌∷◌, ◌++◌, ltb, if◌then◌else◌, length,
}
use hass_comelit_intercom_lo.Base.Bytes.{Bytes}

-- `asyncio.Queue(maxsize=...)`: 500 in the receiver; 300, 500 and 500 in the RTSP server.
abbrev pub nal_queue_size : ℕ
nal_queue_size = 500

abbrev pub rtsp_nal_queue_size : ℕ
rtsp_nal_queue_size = 300

abbrev pub rtsp_audio_queue_size : ℕ
rtsp_audio_queue_size = 500

abbrev pub rtsp_rtp_queue_size : ℕ
rtsp_rtp_queue_size = 500

pub record Receiver : Type 0 where
  pub control_req_id : ℕ
  pub media_req_id : ℕ
  pub udpm_token : ℕ
  pub has_transport : Bool
  -- the datagrams that were sent
  pub sent : List Bytes
  pub current_fua_nal : Bytes
  pub current_fua_ts : ℕ
  pub nal_queue : List (ℕ × Bytes)
  pub rtsp_nal_queue : Option (List (ℕ × Bytes))
  pub rtsp_audio_queue : Option (List Bytes)
  pub rtsp_rtp_queue : Option (List Bytes)
  pub audio_packet_count : ℕ
  pub running : Bool
  pub control_seq : ℕ
  pub media_packet_count : ℕ
  pub udp_media_packet_count : ℕ
  pub tcp_media_packet_count : ℕ
  pub first_video_nal_event : Bool
  pub rtsp_nal_drops : ℕ
  pub rtsp_audio_drops : ℕ
  pub pyav_nal_drops : ℕ
  pub idr_count : ℕ

-- `__init__`
unfoldable pub init : ℕ → ℕ → ℕ → Receiver
init control_req_id media_req_id udpm_token = record {
  control_req_id = control_req_id;
  media_req_id = media_req_id;
  udpm_token = udpm_token;
  has_transport = false;
  sent = [];
  current_fua_nal = [];
  current_fua_ts = 0;
  nal_queue = [];
  rtsp_nal_queue = none;
  rtsp_audio_queue = none;
  rtsp_rtp_queue = none;
  audio_packet_count = 0;
  running = false;
  control_seq = 0;
  media_packet_count = 0;
  udp_media_packet_count = 0;
  tcp_media_packet_count = 0;
  first_video_nal_event = false;
  rtsp_nal_drops = 0;
  rtsp_audio_drops = 0;
  pyav_nal_drops = 0;
  idr_count = 0;
}

unfoldable pub attach_rtsp_queues :
    List (ℕ × Bytes) → List Bytes → Option (List Bytes) → Receiver → Receiver
attach_rtsp_queues nal_queue audio_queue rtp_queue r = record r {
  rtsp_nal_queue = some nal_queue;
  rtsp_audio_queue = some audio_queue;
  rtsp_rtp_queue = rtp_queue;
}

-- `put_nowait`: `none` is `asyncio.QueueFull`.
abbrev pub put_nowait {ℓ} : {A : Type ℓ} → ℕ → A → List A → Option (List A)
put_nowait size item queue = if ltb (length queue) size then some (queue ++ item ∷ []) else none

put_nal : ℕ × Bytes → Receiver → Receiver
put_nal item r = elim (put_nowait nal_queue_size item r.nal_queue) [
  | none ↦ record r { pyav_nal_drops = r.pyav_nal_drops + 1 }
  | some queue ↦ record r { nal_queue = queue }
]

put_rtsp_nal : Option (List (ℕ × Bytes)) → Option (List Bytes) → ℕ × Bytes → Receiver → Receiver
put_rtsp_nal (some queue) none item r = elim (put_nowait rtsp_nal_queue_size item queue) [
  | none ↦ record r { rtsp_nal_drops = r.rtsp_nal_drops + 1 }
  | some queue' ↦ record r { rtsp_nal_queue = some queue' }
]
put_rtsp_nal _ _ item r = r

-- The RTSP server's NAL queue is skipped where the packets themselves are passed through.
unfoldable pub queue_nal : ℕ → Bytes → Receiver → Receiver
unfolding put_nal put_rtsp_nal
queue_nal rtp_ts nal_bytes r =
    let item : ℕ × Bytes = (rtp_ts, nal_bytes) in
    let r' = put_nal item r in
    let r'' = put_rtsp_nal r'.rtsp_nal_queue r'.rtsp_rtp_queue item r' in
    record r'' { first_video_nal_event = true }
