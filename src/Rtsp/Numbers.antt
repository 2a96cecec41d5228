-- ===== src/Rtsp/Numbers.antt =====
-- Sequence numbers, time stamps and counters of the RTSP server's media path.
use hass_comelit_intercom_lo.Base.{
  ℕ, suc, ◌+◌, ◌*◌, bit_and, ◌==◌, ◌%◌, ◌<◌, ◌≡◌, refl, Bool, true, List, [], ◌∷◌, arith, length,
  All, ◌++◌, ok, false, if◌then◌else◌, ltb, Returns, Returns-bind, Returns-map, ◌∙◌, subst,
}
use hass_comelit_intercom_lo.Base.Bytes.{Bytes, IsByte, pack_be16, pack_be32, unpack_be32}
use hass_comelit_intercom_lo.Protocol.Rtp.{build_rtp, bits}
use hass_comelit_intercom_lo.Rtsp.Server.{
  Server, video_ssrc, audio_ssrc, udp_datagrams, broadcast_rtp,
}
use hass_comelit_intercom_lo.Rtsp.Clients.{deliver_all, dead_writers}
use hass_comelit_intercom_lo.Rtsp.Video.{
  u32, translate_video_ts, send_video, send_all, packetize, send_h264, cache_parameter_sets,
  cache_payload, forward_packet, pass_through, feed_audio,
}
use hass_comelit_intercom_lo.Rtsp.Clock.{ClockValid, translate_video_ts-ClockValid}
use hass_comelit_intercom_lo.Rtsp.Packings.{
  returned, build_rtp-Returns, datagrams_sent, marker_bit, pack_be16-Returns, pack_be32-Returns,
  packed8, ssrc_packed,
}

-- What the fields of a packet take, 16-bit sequence numbers and 32-bit time stamps, and 16-bit ports of
-- the UDP client.
pub record IsValid (s : Server) : Type 0 where
  pub video_seq_fits : s.video_seq < 65536
  pub audio_seq_fits : s.audio_seq < 65536
  pub audio_ts_fits : s.audio_ts < u32
  pub video_port_fits : s.udp_video_port < 65536
  pub audio_port_fits : s.udp_audio_port < 65536
  pub clock : ClockValid s

-- After `n` packets with these octets of payload.
pub record Sent (n octets : ℕ) (s s' : Server) : Type 0 where
  pub seq : s'.video_seq ≡ (s.video_seq + n) % 65536
  pub packets : s'.video_pkt_count ≡ s.video_pkt_count + n
  pub octets_sent : s'.video_octet_count ≡ s.video_octet_count + octets
  pub ts : s'.video_ts_out ≡ s.video_ts_out
  pub valid : IsValid s'

-- One packet under the server's sequence number and time stamp is broadcast to all clients: over TCP
-- as `deliver_all` does, and as a datagram.
pub record IsBroadcast (payload : Bytes) (marker : Bool) (s s' : Server) : Type 0 where
  pub packet : Bytes
  pub datagrams : List (ℕ × Bytes)
  pub built : build_rtp 96 s.video_seq s.video_ts_out video_ssrc payload marker ≡ ok packet
  pub clients : s'.active_clients ≡ deliver_all true 0 packet s.active_clients
  pub closed : s'.closed ≡ s.closed ++ dead_writers true 0 packet s.active_clients
  pub addressed : udp_datagrams s.udp_host s.udp_video_port s.has_video_sock 0 packet ≡ ok datagrams
  pub udp : s'.udp_sent ≡ s.udp_sent ++ datagrams

-- One packet after another is broadcast.
pub data Broadcasts : List (Bytes × Bool) → Server → Server → Type 0 where
  finished : {s : Server} → Broadcasts [] s s
  next :
      {payload : Bytes} {marker : Bool} {rest : List (Bytes × Bool)} {s t u : Server}
      → IsBroadcast payload marker s t
      → Broadcasts rest t u
      → Broadcasts ((payload, marker) ∷ rest) s u

send_video-Sent :
    (payload : Bytes) (marker : Bool) (s : Server)
    → IsValid s
    → Returns
        (λ t. Sent 1 (length payload) s t × IsBroadcast payload marker s t)
        (send_video payload marker s)
unfolding send_video broadcast_rtp
send_video-Sent payload marker s v =
    let (packet, built) =
      returned (build_rtp 96 s.video_seq s.video_ts_out video_ssrc payload marker) (
        build_rtp-Returns 96 _ _ video_ssrc payload marker (omega arith) v.video_seq_fits
          v.clock.out_fits (omega arith)) in
    let (datagrams, addressed) =
      datagrams_sent s.udp_host s.udp_video_port s.has_video_sock packet v.video_port_fits in
    rw (built, addressed)
      (
        ground (arith, v),
        record {
          packet = packet;
          datagrams = datagrams;
          built = built;
          clients = refl;
          closed = refl;
          addressed = addressed;
          udp = refl;
        },
      )

Sent-step : {m o p : ℕ} {s t u : Server} → Sent 1 o s t → Sent m p t u → Sent (suc m) (o + p) s u
Sent-step h k = record {
  seq = omega (arith, h.seq, k.seq);
  packets = omega (arith, h.packets, k.packets);
  octets_sent = omega (arith, h.octets_sent, k.octets_sent);
  ts = k.ts ∙ h.ts;
  valid = k.valid;
}

pub octets_of : List (Bytes × Bool) → ℕ
octets_of [] = 0
octets_of ((payload, marker) ∷ rest) = length payload + octets_of rest

send_all-Sent :
    (l : List (Bytes × Bool)) (s : Server)
    → IsValid s
    → Returns (λ t. Sent (length l) (octets_of l) s t × Broadcasts l s t) (send_all l s)
unfolding send_all octets_of
send_all-Sent [] s v = (
  record {
    seq = omega (arith, v.video_seq_fits);
    packets = omega arith;
    octets_sent = omega arith;
    ts = refl;
    valid = v;
  },
  finished,
)
send_all-Sent ((payload, marker) ∷ rest) s v =
    Returns-bind (λ t. Sent 1 (length payload) s t × IsBroadcast payload marker s t) _
      (send_video payload marker s) (send_all rest) (send_video-Sent payload marker s v)
      λ t h.
        Returns-map _ _ (send_all rest t) (λ u k. (Sent-step h.0 k.0, next h.1 k.1))
          (send_all-Sent rest t h.0.valid)

-- From a server whose numbers and ports fit their fields, a NAL unit of any size is sent without an
-- error: each of its packets is broadcast in turn, to the registered clients and as a datagram, under
-- the server's sequence number and time stamp; the sequence number goes on by one for each packet,
-- modulo 2 ^ 16, the packet and octet counters of the sender reports go up by what was sent, and
-- the time stamp stays.
pub send_h264-Sent :
    (nal : Bytes) (s : Server)
    → IsValid s
    → Returns
        (λ t.
          Sent (length (packetize nal)) (octets_of (packetize nal)) s t
          × Broadcasts (packetize nal) s t)
        (send_h264 nal s)
unfolding send_h264
send_h264-Sent nal s v = send_all-Sent (packetize nal) s v

cache_parameter_sets-IsValid :
    (ty : ℕ) (payload : Bytes) (s : Server)
    → IsValid s
    → IsValid (cache_parameter_sets ty payload s)
unfolding cache_parameter_sets
cache_parameter_sets-IsValid ty payload s v = ground arith

translate_video_ts-IsValid :
    (device_ts : ℕ) (s : Server)
    → device_ts < u32
    → IsValid s
    → IsValid (translate_video_ts device_ts s)
translate_video_ts-IsValid device_ts s h v = record {
  video_seq_fits = unfold translate_video_ts in v.video_seq_fits;
  audio_seq_fits = unfold translate_video_ts in v.audio_seq_fits;
  audio_ts_fits = unfold translate_video_ts in v.audio_ts_fits;
  video_port_fits = unfold translate_video_ts in v.video_port_fits;
  audio_port_fits = unfold translate_video_ts in v.audio_port_fits;
  clock = translate_video_ts-ClockValid device_ts s h v.clock;
}

-- The packet that a device packet is forwarded as: its first byte and its marker bit, payload type
-- 96, a sequence number, a time stamp, the server's SSRC and the payload.
abbrev pub forwarded : ℕ → ℕ → Bytes → Bytes → Bytes → Bytes
forwarded b0 b1 number time payload =
    b0 ∷ (bit_and b1 0x80 + 96) ∷ (number ++ time ++ (0xC0 ∷ 0xDE ∷ 0x12 ∷ 0x34 ∷ []) ++ payload)

-- What a device packet is forwarded as: one packet to all clients, with the payload's octets.
pub record Forwarded (b0 b1 : ℕ) (payload : Bytes) (s s' : Server) : Type 0 where
  pub number : Bytes
  pub time : Bytes
  pub datagrams : List (ℕ × Bytes)
  pub numbered : pack_be16 s.video_seq ≡ ok number
  pub timed : pack_be32 s'.video_ts_out ≡ ok time
  pub clients :
      s'.active_clients ≡ deliver_all true 0 (forwarded b0 b1 number time payload) s.active_clients
  pub addressed :
      udp_datagrams s.udp_host s.udp_video_port s.has_video_sock 0
        (forwarded b0 b1 number time payload)
      ≡ ok datagrams
  pub udp : s'.udp_sent ≡ s.udp_sent ++ datagrams
  pub seq : s'.video_seq ≡ (s.video_seq + 1) % 65536
  pub packets : s'.video_pkt_count ≡ s.video_pkt_count + 1
  pub octets_sent : s'.video_octet_count ≡ s.video_octet_count + length payload
  pub valid : IsValid s'

forward_packet-Forwarded :
    (b0 b1 : ℕ) (payload : Bytes) (s : Server)
    → b0 < 256
    → b1 < 256
    → IsValid s
    → Returns (Forwarded b0 b1 payload s) (forward_packet b0 b1 payload s)
unfolding forward_packet broadcast_rtp
forward_packet-Forwarded b0 b1 payload s h k v =
    let marker = marker_bit b1 k in
    let (number, numbered) =
      returned (pack_be16 s.video_seq) (pack_be16-Returns _ v.video_seq_fits) in
    let (time, timed) =
      returned (pack_be32 s.video_ts_out) (pack_be32-Returns _ v.clock.out_fits) in
    let (datagrams, addressed) =
      datagrams_sent s.udp_host s.udp_video_port s.has_video_sock
        (forwarded b0 b1 number time payload) v.video_port_fits in
    rw
      (
        packed8 b0 h,
        packed8 (bit_and b1 0x80 + 96) (omega (arith, marker)),
        numbered,
        timed,
        ssrc_packed,
      )
      (rw addressed (record {
        number = number;
        time = time;
        datagrams = datagrams;
        numbered = numbered;
        timed = timed;
        clients = refl;
        addressed = addressed;
        udp = refl;
        seq = refl;
        packets = refl;
        octets_sent = refl;
        valid = ground (arith, v);
      }))

cache_payload-IsValid :
    (c : ℕ) (rest : Bytes) (s : Server) → IsValid s → IsValid (cache_payload c rest s)
unfolding cache_payload
cache_payload-IsValid c rest s v = ground arith

cached :
    (c : ℕ) (rest : Bytes) (s : Server)
    → (sps : Bytes) × (pps : Bytes) × (cache_payload c rest s
        ≡ record s { latest_sps = sps; latest_pps = pps })
unfolding cache_payload cache_parameter_sets
cached c rest s = go (ltb 1 (length (c ∷ rest))) (bits c 0 5 == 7) (bits c 0 5 == 8)
  where
    go :
        (long is_sps is_pps : Bool)
        → (sps : Bytes) × (pps : Bytes) × ((if◌then◌else◌ {A = Server} long
              (if is_sps
                then record s { latest_sps = c ∷ rest }
                else if is_pps
                then record s { latest_pps = c ∷ rest }
                else s)
              s)
            ≡ record s { latest_sps = sps; latest_pps = pps })
    go true true is_pps = (_, _, refl)
    go true false true = (_, _, refl)
    go true false false = (_, _, refl)
    go false is_sps is_pps = (_, _, refl)

-- What comes before the packet is sent leaves what `Forwarded` is about.
Forwarded-prepared :
    (b0 b1 device_ts c : ℕ) (payload rest : Bytes) (s u : Server)
    → Forwarded b0 b1 payload (translate_video_ts device_ts (cache_payload c rest s)) u
    → Forwarded b0 b1 payload s u
unfolding translate_video_ts
Forwarded-prepared b0 b1 device_ts c payload rest s u h =
    let (sps, pps, e) = cached c rest s in
    let k : Forwarded b0 b1 payload
        (translate_video_ts device_ts (record s { latest_sps = sps; latest_pps = pps })) u =
      subst (λ x. Forwarded b0 b1 payload (translate_video_ts device_ts x) u) e h in
    record {
      number = k.number;
      time = k.time;
      datagrams = k.datagrams;
      numbered = k.numbered;
      timed = k.timed;
      clients = k.clients;
      addressed = k.addressed;
      udp = k.udp;
      seq = k.seq;
      packets = k.packets;
      octets_sent = k.octets_sent;
      valid = k.valid;
    }

-- A packet of the device's, of bytes, with a payload behind its twelve-byte header, is forwarded by
-- a valid server without an error: one packet goes to the registered clients and as a datagram, with
-- the device's first byte, marker bit and payload, under the server's sequence number and its new
-- time stamp.
pub pass_through-Forwarded :
    (b0 b1 b2 b3 b4 b5 b6 b7 b8 b9 b10 b11 c : ℕ) (rest : Bytes) (s : Server)
    → All IsByte (b0 ∷ b1 ∷ b2 ∷ b3 ∷ b4 ∷ b5 ∷ b6 ∷ b7 ∷ [])
    → IsValid s
    → Returns
        (Forwarded b0 b1 (c ∷ rest) s)
        (pass_through (b0 ∷ b1 ∷ b2 ∷ b3 ∷ b4 ∷ b5 ∷ b6 ∷ b7 ∷ b8 ∷ b9 ∷ b10 ∷ b11 ∷ c ∷ rest) s)
unfolding pass_through unpack_be32
pass_through-Forwarded b0 b1 b2 b3 b4 b5 b6 b7 b8 b9 b10 b11 c rest s h v =
    let t : ℕ = 16777216 * b4 + 65536 * b5 + 256 * b6 + b7 in
    Returns-map _ _
      (forward_packet b0 b1 (c ∷ rest) (translate_video_ts t (cache_payload c rest s)))
      (Forwarded-prepared b0 b1 t c (c ∷ rest) rest s)
      (forward_packet-Forwarded b0 b1 (c ∷ rest) _ (omega arith) (omega arith)
        (translate_video_ts-IsValid t _ (omega arith) (cache_payload-IsValid c rest s v)))

feed_audio-IsValid :
    (payload : Bytes) (s : Server) → IsValid s → Returns IsValid (feed_audio payload s)
unfolding feed_audio broadcast_rtp
feed_audio-IsValid payload s v =
    let (packet, built) = returned (build_rtp 8 s.audio_seq s.audio_ts audio_ssrc payload false) (
      build_rtp-Returns 8 _ _ audio_ssrc payload false (omega arith) v.audio_seq_fits
        v.audio_ts_fits (omega arith)) in
    let (datagrams, addressed) =
      datagrams_sent s.udp_host s.udp_audio_port s.has_audio_sock packet v.audio_port_fits in
    rw (built, addressed) (ground (arith, v))
