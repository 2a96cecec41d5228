-- ===== src/Protocol/Video.antt =====
-- protocol.py: the signalling messages of a video call.
use hass_comelit_intercom_lo.Base.{
  ℕ, ◌+◌, bit_xor, Bool, Option, none, some, [], ◌∷◌, ◌++◌, Result, ok, ◌>>=◌, if◌then◌else◌,
  length, take, replicate,
}
use hass_comelit_intercom_lo.Base.Bytes.{Bytes, Str, pack_le16, pack_le32, pack_be16, encode_ascii}
use hass_comelit_intercom_lo.Protocol.Channels.{null_terminated}
use hass_comelit_intercom_lo.Protocol.Door.{wildcard}

abbrev pub action_call_init : ℕ
action_call_init = 0x0028

abbrev pub action_codec_neg : ℕ
action_codec_neg = 0x0008

abbrev pub action_rtpc_link : ℕ
action_rtpc_link = 0x000A

abbrev pub action_video_config : ℕ
action_video_config = 0x001A

abbrev pub action_peer : ℕ
action_peer = 0x0070

abbrev pub action_config_ack : ℕ
action_config_ack = 0x000E

abbrev pub action_hangup : ℕ
action_hangup = 0x002D

abbrev pub action_door_open : ℕ
action_door_open = 0x000D

-- callee.encode("ascii") + b"\x00\x00"
unfoldable pub twice_terminated : Str → Result Bytes
twice_terminated s = do text ← encode_ascii s; ok (text ++ 0x00 ∷ 0x00 ∷ [])

-- The end that all these messages share: four 0xFF, the caller and the callee.
unfoldable pub addresses : Str → Str → Result Bytes
addresses caller callee = do
  from ← null_terminated caller
  to ← twice_terminated callee
  ok (wildcard ++ from ++ to)

unfoldable pub build_ctpp_video_msg : ℕ → ℕ → ℕ → ℕ → Str → Str → Bytes → Result Bytes
build_ctpp_video_msg prefix timestamp action flags caller callee extra = do
  kind ← pack_le16 prefix
  ts ← pack_le32 timestamp
  act ← pack_be16 action
  flag ← pack_be16 flags
  tail ← addresses caller callee
  ok (kind ++ ts ++ act ++ flag ++ extra ++ tail)

unfoldable pub encode_call_init : Str → Str → ℕ → Result Bytes
encode_call_init caller callee timestamp = do
  kind ← pack_le16 0x18C0
  ts ← pack_le32 timestamp
  act ← pack_be16 action_call_init
  flag ← pack_be16 0x0001
  from ← null_terminated caller
  to ← twice_terminated callee
  session ← pack_le32 (bit_xor timestamp 0xC0D31185)
  tail ← addresses caller callee
  ok (
      kind
      ++ ts
      ++ act
      ++ flag
      ++ from
      ++ to
      ++ 0x01 ∷ 0x20 ∷ session
      ++ from
      ++ b'I' ∷ b'I' ∷ tail)

unfoldable pub encode_call_ack : Str → Str → ℕ → Result Bytes
encode_call_ack caller callee timestamp =
    build_ctpp_video_msg 0x1840 timestamp action_codec_neg 0x0003 caller callee
      (0x49 ∷ 0x00 ∷ 0x27 ∷ 0x00 ∷ 0x00 ∷ 0x00 ∷ [])

unfoldable pub encode_rtpc_link : Str → Str → ℕ → ℕ → Bool → Result Bytes
encode_rtpc_link caller callee rtpc_req_id timestamp refresh = do
  id ← pack_le16 rtpc_req_id
  let first : ℕ = if refresh then 0x98 else 0x18
  build_ctpp_video_msg 0x1840 timestamp action_rtpc_link 0x0011 caller callee
      (first ∷ 0x02 ∷ 0x00 ∷ 0x00 ∷ 0x00 ∷ 0x00 ∷ id ++ 0x00 ∷ 0x00 ∷ [])

unfoldable pub encode_video_config_resp : Str → Str → ℕ → ℕ → Result Bytes
encode_video_config_resp caller callee rtpc2_req_id timestamp = do
  id ← pack_le16 rtpc2_req_id
  build_ctpp_video_msg 0x1860 timestamp action_video_config 0x0011 caller callee
      (0x94 ∷ 0x02 ∷ 0x00 ∷ 0x00 ∷ 0x00 ∷ 0x00 ∷ id ++ replicate 18 0x00)

-- The block of `encode_video_config` and `encode_answer_video_reconfig`. The second resolution is
-- always 320 by 240.
video_config_extra : ℕ → ℕ → ℕ → ℕ → Result Bytes
video_config_extra rtpc2_req_id width height fps = do
  id ← pack_le16 rtpc2_req_id
  w ← pack_le16 width
  h ← pack_le16 height
  w2 ← pack_le16 320
  h2 ← pack_le16 240
  rate ← pack_le16 fps
  ok (
      0x14 ∷ 0x32 ∷ 0x00 ∷ 0x00 ∷ 0x00 ∷ 0x00 ∷ id
      ++ 0xFF ∷ 0xFF ∷ 0x00 ∷ 0x00 ∷ 0x00 ∷ 0x00 ∷ w
      ++ h
      ++ w2
      ++ h2
      ++ rate
      ++ 0x00 ∷ 0x00 ∷ [])

unfoldable pub encode_video_config : Str → Str → ℕ → ℕ → ℕ → ℕ → ℕ → Result Bytes
unfolding video_config_extra
encode_video_config caller callee rtpc2_req_id timestamp width height fps = do
  extra ← video_config_extra rtpc2_req_id width height fps
  build_ctpp_video_msg 0x1840 timestamp action_video_config 0x0011 caller callee extra

unfoldable pub encode_answer_video_reconfig : Str → Str → ℕ → ℕ → ℕ → ℕ → ℕ → Result Bytes
unfolding video_config_extra
encode_answer_video_reconfig caller apt_addr rtpc2_req_id timestamp width height fps = do
  extra ← video_config_extra rtpc2_req_id width height fps
  build_ctpp_video_msg 0x1840 timestamp action_video_config 0x0011 caller apt_addr extra

-- Without the flags field.
unfoldable pub encode_call_response_ack : Str → Str → ℕ → ℕ → Result Bytes
encode_call_response_ack caller callee timestamp prefix = do
  kind ← pack_le16 prefix
  ts ← pack_le32 timestamp
  act ← pack_be16 0x0000
  tail ← addresses caller callee
  ok (kind ++ ts ++ act ++ tail)

unfoldable pub encode_answer_peer : Str → Str → ℕ → Bool → Result Bytes
encode_answer_peer caller entrance_addr timestamp renewal = do
  from ← null_terminated caller
  let flag : ℕ = if renewal then 0x00 else 0x01
  let prefix : ℕ = if renewal then 0x1860 else 0x1840
  let inner_payload : Bytes = from ++ flag ∷ 0x00 ∷ []
  kind ← pack_le16 prefix
  ts ← pack_le32 timestamp
  inner_len ← pack_be16 (2 + length inner_payload)
  act ← pack_be16 action_peer
  tail ← addresses caller entrance_addr
  ok (kind ++ ts ++ inner_len ++ act ++ inner_payload ++ tail)

unfoldable pub encode_answer_config_ack : Str → Str → ℕ → Result Bytes
encode_answer_config_ack caller entrance_addr timestamp = do
  kind ← pack_le16 0x1840
  ts ← pack_le32 timestamp
  inner_len ← pack_be16 0x0002
  act ← pack_be16 action_config_ack
  tail ← addresses caller entrance_addr
  ok (kind ++ ts ++ inner_len ++ act ++ 0x00 ∷ 0x00 ∷ tail)

-- s.encode("ascii").ljust(10, b"\x00")[:10]
unfoldable pub padded : Str → Result Bytes
padded s = do text ← encode_ascii s; ok (take 10 (text ++ replicate 10 0x00))

unfoldable pub encode_door_open_during_video : Str → Str → ℕ → ℕ → Option Str → Result Bytes
encode_door_open_during_video our_addr entrance_addr call_counter relay_index apt_addr = do
  our_b ← padded our_addr
  entr_b ← padded entrance_addr
  apt_b ← padded (elim apt_addr [ none ↦ entrance_addr | some a ↦ a ])
  kind ← pack_le16 0x1840
  ts ← pack_le32 call_counter
  act ← pack_be16 action_door_open
  flag ← pack_be16 0x002D
  relay ← pack_le32 relay_index
  ok (kind ++ ts ++ act ++ flag ++ entr_b ++ relay ++ wildcard ++ our_b ++ apt_b)

unfoldable pub encode_hangup : Str → Str → ℕ → Result Bytes
encode_hangup caller entrance_addr timestamp = do
  kind ← pack_le16 0x1830
  ts ← pack_le32 timestamp
  act ← pack_be16 action_hangup
  entrance ← null_terminated entrance_addr
  tail ← addresses caller entrance_addr
  ok (kind ++ ts ++ act ++ entrance ++ tail)
