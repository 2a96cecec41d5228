-- ===== src/VideoCall/Cleanup.antt =====
-- video_call.py: `_cleanup`, which `stop` and `_auto_timeout_loop` call. The exceptions that it suppresses have
-- no effect on the fields here.
use hass_comelit_intercom_lo.Base.{Bool, false, ◌&&◌, ◌||◌, not, none, List, [], ◌∷◌, if◌then◌else◌}
use hass_comelit_intercom_lo.Base.Bytes.{Str}
use hass_comelit_intercom_lo.Base.Dict.{same}
use hass_comelit_intercom_lo.Client.State.{Client}
use hass_comelit_intercom_lo.Client.Calls.{remove_channel}
use hass_comelit_intercom_lo.VideoCall.Session.{VideoSession, Call}

abbrev pub ctpp_name : Str
ctpp_name = b'C' ∷ b'T' ∷ b'P' ∷ b'P' ∷ []

abbrev pub cspb_name : Str
cspb_name = b'C' ∷ b'S' ∷ b'P' ∷ b'B' ∷ []

abbrev pub udpm_name : Str
udpm_name = b'U' ∷ b'D' ∷ b'P' ∷ b'M' ∷ []

abbrev pub rtpc_name : Str
rtpc_name = b'R' ∷ b'T' ∷ b'P' ∷ b'C' ∷ []

abbrev pub rtpc2_name : Str
rtpc2_name = b'R' ∷ b'T' ∷ b'P' ∷ b'C' ∷ b'2' ∷ []

abbrev pub rtpc_device_name : Str
rtpc_device_name = b'R' ∷ b'T' ∷ b'P' ∷ b'C' ∷ b'_' ∷ b'D' ∷ b'E' ∷ b'V' ∷ b'I' ∷ b'C' ∷ b'E' ∷ []

abbrev pub rtpc_device_reest_name : Str
rtpc_device_reest_name =
    b'R' ∷ b'T' ∷ b'P' ∷ b'C' ∷ b'_' ∷ b'D' ∷ b'E' ∷ b'V' ∷ b'I' ∷ b'C' ∷ b'E' ∷ b'_' ∷ b'R' ∷ b'E'
    ∷ b'E' ∷ b'S' ∷ b'T' ∷ []

abbrev pub video_channel_names : List Str
video_channel_names =
    ctpp_name ∷ cspb_name ∷ udpm_name ∷ rtpc_name ∷ rtpc2_name ∷ rtpc_device_name
    ∷ rtpc_device_reest_name ∷ []

-- The names that the session does not own are kept.
unfoldable pub is_kept : Bool → Str → Bool
is_kept owns_ctpp name = (same name ctpp_name || same name cspb_name) && not owns_ctpp

unfoldable pub release_channels : {Msg : Type 0} → Bool → List Str → Client Msg → Client Msg
unfolding is_kept
release_channels owns_ctpp [] c = c
release_channels owns_ctpp (name ∷ names) c =
    release_channels owns_ctpp names (if is_kept owns_ctpp name then c else remove_channel name c)

-- The fields: all tasks end, the receiver goes, and a server of the session's own with it.
unfoldable pub clear_session : VideoSession → VideoSession
clear_session v = record v {
  active = false;
  timeout_task = false;
  tcp_task = false;
  ctpp_task = false;
  rtp_receiver = none;
  rtsp_server = if v.external_rtsp then v.rtsp_server else none;
}

unfoldable pub cleanup : {Msg : Type 0} → Call Msg → Call Msg
unfolding clear_session release_channels
cleanup s = record s {
  client = release_channels s.session.owns_ctpp video_channel_names s.client;
  session = clear_session s.session;
}

unfoldable pub stop : {Msg : Type 0} → Call Msg → Call Msg
unfolding cleanup
stop s = cleanup s
