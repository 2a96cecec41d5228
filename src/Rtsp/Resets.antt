-- ===== src/Rtsp/Resets.antt =====
-- `reset` of rtsp_server.py and the priming of clients, from any valid server.
use hass_comelit_intercom_lo.Base.{
  ℕ, suc, ◌+◌, ◌%◌, ◌≤◌, ◌<◌, ◌≡◌, refl, ap, sym, ◌∙◌, true, false, Option, none, some, List, [],
  ◌∷◌, Result, ok, arith, length, Returns, Returns-bind, Returns-map, Returns-if, ltb,
}
use mathlib.Core.Path.{subst}
use hass_comelit_intercom_lo.Base.Bytes.{
  Bytes, pack_byte, pack_be16, pack_be32, unpack_be16, unpack_be32,
}
use hass_comelit_intercom_lo.Base.Packing.{Anything}
use hass_comelit_intercom_lo.Protocol.Rtp.{build_rtp}
use hass_comelit_intercom_lo.Rtsp.Clients.{TcpClient, write}
use hass_comelit_intercom_lo.Rtsp.Server.{Server, video_ssrc}
use hass_comelit_intercom_lo.Rtsp.Video.{u32}
use hass_comelit_intercom_lo.Rtsp.Numbers.{IsValid}
use hass_comelit_intercom_lo.Rtsp.Packings.{build_rtp-Returns}
use hass_comelit_intercom_lo.Rtsp.Rtcp.{
  build_rtcp_sr, video_report, audio_report, initial_report, after_write, send_initial_sr_to_client,
  prime_with, prime_on, prime_client,
}
use hass_comelit_intercom_lo.Rtsp.Session.{prime_all, rewind, reset}

-- The two packets of a compound report fill 52 bytes: 28 for the sender report, of six words behind
-- its first, and 24 for the source description, of five.
pub record IsReport (rtp_ts pkt_count : ℕ) (b : Bytes) : Type 0 where
  pub size : length b ≡ 52
  pub report_words : unpack_be16 b 2 ≡ ok 6
  pub time : unpack_be32 b 16 ≡ ok (rtp_ts % u32)
  pub packets : unpack_be32 b 20 ≡ ok (pkt_count % u32)
  pub description_words : unpack_be16 b 30 ≡ ok 5

-- Whatever the numbers, `_build_rtcp_sr` returns a report of full 32-bit words, whose length fields
-- are right, and which carries the RTP time stamp and the packet count modulo 2 ^ 32.
pub build_rtcp_sr-IsReport :
    (ssrc secs frac rtp_ts pkt_count octet_count : ℕ)
    → Returns
        (IsReport rtp_ts pkt_count)
        (build_rtcp_sr ssrc secs frac rtp_ts pkt_count octet_count)
unfolding build_rtcp_sr pack_byte pack_be16 pack_be32 unpack_be16 unpack_be32
build_rtcp_sr-IsReport ssrc secs frac rtp_ts pkt_count octet_count = ground arith

video_report-Returns : (secs frac : ℕ) (s : Server) → Returns Anything (video_report secs frac s)
unfolding video_report
video_report-Returns secs frac s =
    Returns-map _ Anything _ (λ _ _. tt) (build_rtcp_sr-IsReport _ secs frac _ _ _)

audio_report-Returns : (secs frac : ℕ) (s : Server) → Returns Anything (audio_report secs frac s)
unfolding audio_report
audio_report-Returns secs frac s =
    Returns-map _ Anything _ (λ _ _. tt) (build_rtcp_sr-IsReport _ secs frac _ _ _)

initial_report-Returns :
    (ch : Option ℕ) (count : ℕ) (sr : Result Bytes) (c : TcpClient)
    → Returns Anything sr
    → Returns Anything (initial_report ch count sr c)
unfolding initial_report
initial_report-Returns none count sr c h = tt
initial_report-Returns (some ch) count sr c h =
    Returns-if Anything (ltb 0 count) _ _ (λ _. Returns-bind Anything Anything sr _ h (λ _ _. tt))
      (λ _. tt)

send_initial_sr-Returns :
    (secs frac : ℕ) (s : Server) (c : TcpClient)
    → Returns Anything (send_initial_sr_to_client secs frac s c)
unfolding send_initial_sr_to_client
send_initial_sr-Returns secs frac s c =
    Returns-bind Anything Anything
      (initial_report c.video_ch s.video_pkt_count (video_report secs frac s) c) _
      (initial_report-Returns _ _ _ c (video_report-Returns secs frac s))
      (λ c1 _. initial_report-Returns _ _ _ c1 (audio_report-Returns secs frac s))

-- Priming a client moves the sequence number, and nothing else of the server.
pub record Primed (s s' : Server) : Type 0 where
  pub same : s' ≡ record s { video_seq = s'.video_seq }
  pub fits : s'.video_seq < 65536

Primed-trans : {s t u : Server} → Primed s t → Primed t u → Primed s u
Primed-trans {s} {t} {u} h k = record {
  same = k.same ∙ ap (λ (x : Server). record x { video_seq = u.video_seq }) h.same;
  fits = k.fits;
}

Primed-next : (s : Server) → Primed s (record s { video_seq = (s.video_seq + 1) % 65536 })
Primed-next s = record { same = refl; fits = omega arith }

after_write-Returns :
    (P : TcpClient × Server → Type 0) (o : Option TcpClient) (c : TcpClient) (s : Server)
    (go_on : TcpClient → Result (TcpClient × Server))
    → P (c, s)
    → ((c' : TcpClient) → Returns P (go_on c'))
    → Returns P (after_write o c s go_on)
unfolding after_write
after_write-Returns P none c s go_on h k = h
after_write-Returns P (some c') c s go_on h k = k c'

prime_with-Primed :
    (ch : ℕ) (nals : List Bytes) (ts : ℕ) (c : TcpClient) (s : Server)
    → s.video_seq < 65536
    → ts < u32
    → Returns (λ r. Primed s r.1) (prime_with ch nals ts c s)
unfolding prime_with
prime_with-Primed ch [] ts c s h k = record { same = refl; fits = h }
prime_with-Primed ch ([] ∷ nals) ts c s h k = prime_with-Primed ch nals ts c s h k
prime_with-Primed ch ((b ∷ nal) ∷ nals) ts c s h k =
    let s' : Server = record s { video_seq = (s.video_seq + 1) % 65536 } in
    Returns-bind Anything _ (build_rtp 96 s.video_seq ts video_ssrc (b ∷ nal) false) _
      (build_rtp-Returns 96 s.video_seq ts video_ssrc (b ∷ nal) false (omega arith) h k
        (omega arith))
      λ packet _. after_write-Returns _ (write ch packet c) c s' _ (Primed-next s) λ c'.
        Returns-map _ _ (prime_with ch nals ts c' s') (λ r p. Primed-trans (Primed-next s) p)
          (prime_with-Primed ch nals ts c' s' (omega arith) k)

prime_on-Primed :
    (secs frac : ℕ) (ch : Option ℕ) (c : TcpClient) (s : Server)
    → IsValid s
    → Returns (λ r. Primed s r.1) (prime_on ch secs frac c s)
unfolding prime_on
prime_on-Primed secs frac none c s v = record { same = refl; fits = v.video_seq_fits }
prime_on-Primed secs frac (some ch) c s v =
    Returns-bind Anything _ (send_initial_sr_to_client secs frac s c) _
      (send_initial_sr-Returns secs frac s c)
      (λ c1 _. prime_with-Primed ch _ s.video_ts_out c1 s v.video_seq_fits v.clock.out_fits)

prime_client-Primed :
    (secs frac : ℕ) (c : TcpClient) (s : Server)
    → IsValid s
    → Returns (λ r. Primed s r.1) (prime_client secs frac c s)
unfolding prime_client
prime_client-Primed secs frac c s v = prime_on-Primed secs frac c.video_ch c s v

-- A valid server stays valid when its sequence number moves.
Primed-IsValid : {s t : Server} → Primed s t → IsValid s → IsValid t
Primed-IsValid {s} {t} h v = subst IsValid (sym h.same) moved
  where
    moved : IsValid (record s { video_seq = t.video_seq })
    moved = record {
      video_seq_fits = h.fits;
      audio_seq_fits = v.audio_seq_fits;
      audio_ts_fits = v.audio_ts_fits;
      video_port_fits = v.video_port_fits;
      audio_port_fits = v.audio_port_fits;
      clock = record {
        out_fits = v.clock.out_fits;
        offset_fits = v.clock.offset_fits;
        in_step = v.clock.in_step;
      };
    }

prime_all-Primed :
    (secs frac : ℕ) (cs : List TcpClient) (s : Server)
    → IsValid s
    → Returns (λ r. Primed s r.1 × (length r.0 ≡ length cs)) (prime_all secs frac cs s)
unfolding prime_all
prime_all-Primed secs frac [] s v = (record { same = refl; fits = v.video_seq_fits }, refl)
prime_all-Primed secs frac (c ∷ cs) s v =
    Returns-bind (λ r. Primed s r.1) _ (prime_client secs frac c s) _
      (prime_client-Primed secs frac c s v)
      λ r p.
        Returns-bind _ _ (prime_all secs frac cs r.1) _
          (prime_all-Primed secs frac cs r.1 (Primed-IsValid p v))
          (λ q k. (Primed-trans p k.0, ap suc k.1))

-- What `reset` leaves.
pub record Rewound (s s' : Server) : Type 0 where
  pub nals_drained : s'.nal_queue ≡ []
  pub rtp_drained : s'.rtp_queue ≡ []
  pub audio_drained : s'.audio_queue ≡ []
  pub rebase : s'.video_ts_rebase_pending ≡ true
  pub not_before : s.video_ts_out ≤ s'.video_ts_out
  pub no_packets : s'.video_pkt_count ≡ 0
  pub no_audio_packets : s'.audio_pkt_count ≡ 0
  pub no_octets : s'.video_octet_count ≡ 0
  pub no_audio_octets : s'.audio_octet_count ≡ 0
  pub clients_kept : length s'.active_clients ≡ length s.active_clients
  pub valid : IsValid s'

rewind-IsValid : (s : Server) → IsValid s → IsValid (rewind s)
unfolding rewind
rewind-IsValid s v = ground arith

IsValid-clients :
    (cs : List TcpClient) (s : Server) → IsValid s → IsValid (record s { active_clients = cs })
IsValid-clients cs s v = record {
  video_seq_fits = v.video_seq_fits;
  audio_seq_fits = v.audio_seq_fits;
  audio_ts_fits = v.audio_ts_fits;
  video_port_fits = v.video_port_fits;
  audio_port_fits = v.audio_port_fits;
  clock = record {
    out_fits = v.clock.out_fits;
    offset_fits = v.clock.offset_fits;
    in_step = v.clock.in_step;
  };
}

Rewound-Primed :
    (s t : Server) (cs : List TcpClient)
    → IsValid s
    → Primed (rewind s) t
    → length cs ≡ length s.active_clients
    → Rewound s (record t { active_clients = cs })
unfolding rewind
Rewound-Primed s t cs v p e =
    subst (λ (x : Server). Rewound s (record x { active_clients = cs })) (sym p.same)
      (record {
        nals_drained = refl;
        rtp_drained = refl;
        audio_drained = refl;
        rebase = refl;
        not_before = omega arith;
        no_packets = refl;
        no_audio_packets = refl;
        no_octets = refl;
        no_audio_octets = refl;
        clients_kept = e;
        valid =
            IsValid-clients cs _
              (Primed-IsValid (record { same = refl; fits = p.fits }) (rewind-IsValid s v));
      })

-- From a valid server, and whatever its clients' connections do, `reset` returns without an error.
-- The queues are empty, the packet and octet counters 0, the time stamp is as a number not below the
-- last one and is rebased at the next frame, no client is dropped, and the server is valid.
pub reset-Rewound :
    (secs frac : ℕ) (s : Server) → IsValid s → Returns (Rewound s) (reset secs frac s)
unfolding reset
reset-Rewound secs frac s v =
    Returns-bind _ (Rewound s) (prime_all secs frac s.active_clients (rewind s)) _
      (prime_all-Primed secs frac s.active_clients (rewind s) (rewind-IsValid s v))
      λ r p. Rewound-Primed s r.1 r.0 v p.0 p.1
