-- ===== src/Rtsp/Packings.antt =====
-- The packets and datagrams of rtsp_server.py can be made where their numbers fit.
use hass_comelit_intercom_lo.Base.{
  ℕ, bit_and, ◌==◌, ◌||◌, ◌≤◌, ◌<◌, ◌≡◌, refl, Bool, true, List, [], ◌∷◌, arith, Option, none, some,
  Result, ok, err, Returns,
}
use hass_comelit_intercom_lo.Base.Bits.{each_of, each_of_lem}
use hass_comelit_intercom_lo.Base.Bytes.{Bytes, Str, pack_byte, pack_be16, pack_be32}
use hass_comelit_intercom_lo.Base.Packing.{Anything}
use hass_comelit_intercom_lo.Protocol.Rtp.{build_rtp}
use hass_comelit_intercom_lo.Rtsp.Server.{video_ssrc, udp_datagrams}
use hass_comelit_intercom_lo.Rtsp.Video.{u32}

pub returned : {A : Type 0} (r : Result A) → Returns Anything r → (a : A) × (r ≡ ok a)
returned (ok a) h = (a, refl)
returned (err e) h = elim h [ ]

pub build_rtp-Returns :
    (pt seq ts ssrc : ℕ) (payload : Bytes) (marker : Bool)
    → pt < 128
    → seq < 65536
    → ts < u32
    → ssrc < u32
    → Returns Anything (build_rtp pt seq ts ssrc payload marker)
unfolding build_rtp pack_byte pack_be16 pack_be32
build_rtp-Returns pt seq ts ssrc payload marker p h k l = ground arith

pub datagrams_sent :
    (host : Option Str) (port : ℕ) (sock : Bool) (packet : Bytes)
    → port < 65536
    → (datagrams : List (ℕ × Bytes)) × (udp_datagrams host port sock 0 packet ≡ ok datagrams)
unfolding udp_datagrams
datagrams_sent none port sock packet h = ([], refl)
datagrams_sent (some host) port sock packet h =
    returned (udp_datagrams (some host) port sock 0 packet) (ground arith)

marker_table : each_of (λ b. bit_and b 0x80 == 0 || bit_and b 0x80 == 128) 256 ≡ true
unfolding each_of
marker_table = refl

pub marker_bit : (b : ℕ) → b < 256 → bit_and b 0x80 ≤ 128
marker_bit b h = ground (arith, each_of_lem _ 256 marker_table b h)

pub pack_be16-Returns : (n : ℕ) → n < 65536 → Returns Anything (pack_be16 n)
unfolding pack_be16
pack_be16-Returns n h = ground arith

pub pack_be32-Returns : (n : ℕ) → n < u32 → Returns Anything (pack_be32 n)
unfolding pack_be32
pack_be32-Returns n h = ground arith

pub packed8 : (n : ℕ) → n < 256 → pack_byte n ≡ ok (n ∷ [])
unfolding pack_byte
packed8 n h = ground arith

pub ssrc_packed : pack_be32 video_ssrc ≡ ok (0xC0 ∷ 0xDE ∷ 0x12 ∷ 0x34 ∷ [])
unfolding pack_be32
ssrc_packed = refl
