-- ===== src/Rtsp/Sdp.antt =====
-- rtsp_server.py: `_build_sdp`, with Python's `base64.b64encode` and `bytes.hex`.
use hass_comelit_intercom_lo.Base.{
  ℕ, ◌+◌, ◌-◌, ◌*◌, ◌/◌, ◌%◌, [], ◌∷◌, ◌++◌, ltb, if◌then◌else◌, take, drop,
}
use hass_comelit_intercom_lo.Base.Bytes.{Bytes, Str}
use hass_comelit_intercom_lo.Base.Text.{codes}
use hass_comelit_intercom_lo.Rtsp.Server.{Server}

base64_digit : ℕ → ℕ
base64_digit n =
    if ltb n 26
    then b'A' + n
    else if ltb n 52
    then b'a' + (n - 26)
    else if ltb n 62
    then b'0' + (n - 52)
    else if ltb n 63
    then b'+'
    else b'/'

-- Three bytes to four digits; the last group is padded.
unfoldable pub b64encode : Bytes → Str
unfolding base64_digit
b64encode [] = []
b64encode (a ∷ []) = base64_digit (a / 4) ∷ base64_digit (a % 4 * 16) ∷ b'=' ∷ b'=' ∷ []
b64encode (a ∷ b ∷ []) =
    base64_digit (a / 4)
    ∷ base64_digit (a % 4 * 16 + b / 16)
    ∷ base64_digit (b % 16 * 4)
    ∷ b'='
    ∷ []
b64encode (a ∷ b ∷ c ∷ bytes) =
    base64_digit (a / 4)
    ∷ base64_digit (a % 4 * 16 + b / 16)
    ∷ base64_digit (b % 16 * 4 + c / 64)
    ∷ base64_digit (c % 64)
    ∷ b64encode bytes

hex_digit : ℕ → ℕ
hex_digit n = if ltb n 10 then b'0' + n else b'a' + (n - 10)

unfoldable pub hex : Bytes → Str
unfolding hex_digit
hex [] = []
hex (b ∷ bytes) = hex_digit (b / 16) ∷ hex_digit (b % 16) ∷ hex bytes

unfoldable pub build_sdp : Server → Str
build_sdp s =
    codes "v=0\r\no=- 0 0 IN IP4 "
    ++ (s.bind_host
        ++ (codes "\r\ns=Comelit Intercom\r\nt=0 0\r\nm=video 0 RTP/AVP 96\r\nc=IN IP4 0.0.0.0\r\n"
            ++ (codes "a=rtpmap:96 H264/90000\r\na=fmtp:96 packetization-mode=1;profile-level-id="
                ++ (hex (take 3 (drop 1 s.latest_sps))
                    ++ (codes ";sprop-parameter-sets="
                        ++ (b64encode s.latest_sps
                            ++ (codes ","
                                ++ (b64encode s.latest_pps
                                    ++ codes "\r\na=control:video\r\n"))))))))
