-- ===== src/Rtsp/Setups.antt =====
-- `_parse_setup` of rtsp_server.py on the Transport headers that clients send.
use hass_comelit_intercom_lo.Base.{
  ℕ, ◌+◌, ◌≤◌, ◌≡◌, refl, Bool, true, false, ◌==◌, some, if◌then◌else◌, ap, [], ◌∷◌, ◌++◌, ok,
  arith, All, All-append,
}
use hass_comelit_intercom_lo.Base.Bytes.{Str, decimal}
use hass_comelit_intercom_lo.Base.Numerals.{
  AreDigits, decimal-AreDigits, int_of-decimal, split_by_whole, before_digits, contains_of_absent,
  HasNoSpace-of_digits, strip_whole, HasNoSpace,
}
use hass_comelit_intercom_lo.Base.Text.{codes, is_space, split_by, before, contains, split_once}
use hass_comelit_intercom_lo.Rtsp.Clients.{TcpClient}
use hass_comelit_intercom_lo.Rtsp.Server.{Server}
use hass_comelit_intercom_lo.Rtsp.Transport.{
  pair_from, tcp_transport, udp_transport, set_channel, set_client_port, server_port, parse_setup,
}

no_semicolon_of_digits : (s : Str) → AreDigits s → All (λ c. (c == b';') ≡ false) s
no_semicolon_of_digits [] d = tt
no_semicolon_of_digits (c ∷ s) d = (ground arith, no_semicolon_of_digits s d.1)

no_semicolon_in_pair : (n : ℕ) → All (λ c. (c == b';') ≡ false) (pair_from n)
no_semicolon_in_pair n =
    All-append (λ c. (c == b';') ≡ false) (decimal n) (b'-' ∷ decimal (n + 1))
      (no_semicolon_of_digits _ (decimal-AreDigits n))
      (refl, no_semicolon_of_digits _ (decimal-AreDigits (n + 1)))

split-pair_from : (n : ℕ) → split_by (λ c. c == b';') (pair_from n) ≡ pair_from n ∷ []
split-pair_from n = split_by_whole _ (pair_from n) (no_semicolon_in_pair n)

before-pair_from : (n : ℕ) → before b'-' (pair_from n) ≡ decimal n
before-pair_from n = before_digits b'-' (decimal n) _ refl (decimal-AreDigits n)

set_channel_lem :
    (n : ℕ) (is_audio : Bool) (c : TcpClient)
    → set_channel is_audio n c ≡ record c {
      video_ch = if is_audio then c.video_ch else some n;
      audio_ch = if is_audio then some n else c.audio_ch;
    }
unfolding set_channel
set_channel_lem n true c = refl
set_channel_lem n false c = refl

-- A SETUP for interleaved channels `n` and `n + 1` puts audio on channel `n` if its URL is the one of
-- the audio, and else video, and is answered with the very transport that was asked for; the other
-- medium's channel, the rest of the client and the server do not change.
pub parse_setup-tcp_transport :
    (n : ℕ) (is_audio : Bool) (host : Str) (c : TcpClient) (s : Server)
    → parse_setup (tcp_transport n) is_audio host c s
      ≡ ok (
        codes "Transport: " ++ tcp_transport n,
        record c {
          video_ch = if is_audio then c.video_ch else some n;
          audio_ch = if is_audio then some n else c.audio_ch;
        },
        s,
      )
unfolding parse_setup contains split_by split_once before
parse_setup-tcp_transport n is_audio host c s =
    rw (split-pair_from n, before-pair_from n, int_of-decimal n)
      (ap (λ c'. ok (codes "Transport: " ++ tcp_transport n, c', s)) (set_channel_lem n is_audio c))

HasNoSpace-pair_from : (n : ℕ) → HasNoSpace (pair_from n)
HasNoSpace-pair_from n =
    All-append (λ c. is_space c ≡ false) (decimal n) (b'-' ∷ decimal (n + 1))
      (HasNoSpace-of_digits _ (decimal-AreDigits n))
      (unfold is_space in refl, HasNoSpace-of_digits _ (decimal-AreDigits (n + 1)))

absent_from_digits : (w : ℕ) → 58 ≤ w → (s : Str) → AreDigits s → All (λ c. (w == c) ≡ false) s
absent_from_digits w h [] d = tt
absent_from_digits w h (c ∷ s) d = (ground arith, absent_from_digits w h s d.1)

pair_from-lacks : (w : ℕ) (word : Str) (n : ℕ) → 58 ≤ w → contains (w ∷ word) (pair_from n) ≡ false
pair_from-lacks w word n h = contains_of_absent w word (pair_from n) (
    All-append (λ c. (w == c) ≡ false) (decimal n) (b'-' ∷ decimal (n + 1))
      (absent_from_digits w h _ (decimal-AreDigits n))
      (ground arith, absent_from_digits w h _ (decimal-AreDigits (n + 1))))

-- What a client asks for over UDP.
abbrev pub udp_request : ℕ → Str
udp_request port = codes "RTP/AVP;unicast;client_port=" ++ pair_from port

-- A SETUP for the client's UDP ports from `n` makes `n` the port of the medium on the client's host,
-- and the answer names these ports and those of the server; the client's record does not change.
pub parse_setup-udp_request :
    (n : ℕ) (is_audio : Bool) (host : Str) (c : TcpClient) (s : Server)
    → parse_setup (udp_request n) is_audio host c s
      ≡ ok (
        codes "Transport: " ++ udp_transport n (server_port is_audio s),
        c,
        set_client_port is_audio n host s,
      )
unfolding parse_setup contains split_by split_once before
parse_setup-udp_request n is_audio host c s =
    rw
      (
        pair_from-lacks b'R' (codes "TP/AVP/TCP") n (omega arith),
        pair_from-lacks b'i' (codes "nterleaved") n (omega arith),
        split-pair_from n,
        strip_whole (pair_from n) (HasNoSpace-pair_from n),
        before-pair_from n,
        int_of-decimal n,
      )
      refl
