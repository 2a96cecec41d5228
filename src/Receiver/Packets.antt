-- ===== src/Receiver/Packets.antt =====
-- rtp_receiver.py: packets from the device by UDP and TCP, and the control packets sent to it.
use hass_comelit_intercom_lo.Base.{
  ℕ, ◌+◌, ◌/◌, ◌%◌, ◌==◌, true, false, [], ◌∷◌, ◌++◌, Result, ok, ◌>>=◌, ltb, leb, if◌then◌else◌,
  length, take, drop,
}
use hass_comelit_intercom_lo.Base.Bytes.{Bytes, pack_le16, unpack_le16}
use hass_comelit_intercom_lo.Protocol.Header.{header_size}
use hass_comelit_intercom_lo.Receiver.Queues.{Receiver}
use hass_comelit_intercom_lo.Receiver.Nals.{process_rtp}

-- struct.pack("<BBHH2s", 0x00, 0x06, 6, control_req_id, b"\x00\x00") + body
unfoldable pub build_control_packet : ℕ → ℕ → ℕ → Result Bytes
build_control_packet control_req_id udpm_token seq = do
  len ← pack_le16 6
  id ← pack_le16 control_req_id
  ok (
      0x00 ∷ 0x06 ∷ len
      ++ id
      ++ 0x00 ∷ 0x00 ∷ []
      ++ udpm_token % 256 ∷ udpm_token / 256 % 256 ∷ 0x00 ∷ seq % 256 ∷ 0x00 ∷ 0x80 ∷ [])

unfoldable pub send_control : Receiver → Result Receiver
send_control r =
    if r.has_transport
    then (do
      packet ← build_control_packet r.control_req_id r.udpm_token r.control_seq
      ok (record r { sent = r.sent ++ packet ∷ []; control_seq = r.control_seq + 1 }))
    else ok r

-- `start_control`, once the socket is bound.
unfoldable pub start_control : Receiver → Result Receiver
unfolding send_control
start_control r = do
  r1 ← send_control (record r { has_transport = true; running = true })
  send_control r1

unfoldable pub set_media_req_id : ℕ → Receiver → Receiver
set_media_req_id media_req_id r = record r { media_req_id = media_req_id }

-- From the RTPC2 channel, the ICONA header already stripped.
unfoldable pub receive_tcp_rtp : Bytes → Receiver → Result Receiver
receive_tcp_rtp packet r =
    if ltb (length packet) 12
    then ok r
    else process_rtp packet (record r {
      media_packet_count = r.media_packet_count + 1;
      tcp_media_packet_count = r.tcp_media_packet_count + 1;
    })

-- A datagram, with the ICONA header, and behind the RTP packet a trailer of the device's.
unfoldable pub on_udp_packet : Bytes → Receiver → Result Receiver
on_udp_packet packet r = if ltb (length packet) (header_size + 12) then ok r else (do
  req_id ← unpack_le16 packet 4
  body_len ← unpack_le16 packet 2
  let raw_rtp : Bytes = take body_len (drop header_size packet)
  let counted : Receiver = record r {
    media_packet_count = r.media_packet_count + 1;
    udp_media_packet_count = r.udp_media_packet_count + 1;
  }
  if req_id == r.media_req_id
      then (if leb 13 (length raw_rtp) then process_rtp raw_rtp counted else ok counted)
      else ok r)

-- `stop`: the tasks end, and the socket is closed.
unfoldable pub stop : Receiver → Receiver
stop r = record r { running = false; has_transport = false }
