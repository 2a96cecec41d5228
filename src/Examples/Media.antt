-- ===== src/Examples/Media.antt =====
-- rtp_receiver.py and rtsp_server.py at concrete inputs.
use hass_comelit_intercom_lo.Base.{
  some, none, false, List, ◌+◌, ◌%◌, ◌≤◌, ◌≡◌, refl, true, [], ◌∷◌, ok, arith, length, replicate,
  Returns, ◌++◌,
}
use hass_comelit_intercom_lo.Base.Bytes.{Bytes, pack_byte, pack_be16, pack_be32}
use hass_comelit_intercom_lo.Protocol.Rtp.{build_rtp}
use hass_comelit_intercom_lo.Receiver.Queues as Queues
use hass_comelit_intercom_lo.Receiver.Queues.{Receiver, queue_nal}
use hass_comelit_intercom_lo.Receiver.Nals.{start_code}
use hass_comelit_intercom_lo.Receiver.Packets.{on_udp_packet}
use hass_comelit_intercom_lo.Receiver.Bounds.{IsBounded, on_udp_packet-IsBounded}
use hass_comelit_intercom_lo.Rtsp.Server as Servers
use hass_comelit_intercom_lo.Rtsp.Server.{Server}
use hass_comelit_intercom_lo.Rtsp.Video.{
  packetize, fragments, send_h264, pass_through, translate_video_ts, u32,
}
use hass_comelit_intercom_lo.Rtsp.Clock.{advance, translate_video_ts_forward}
use hass_comelit_intercom_lo.Rtsp.Numbers.{
  IsValid, Sent, Broadcasts, octets_of, Forwarded, send_h264-Sent, pass_through-Forwarded,
}
use hass_comelit_intercom_lo.Rtsp.Resets.{Rewound, reset-Rewound}
use hass_comelit_intercom_lo.Rtsp.Session.{reset}
use hass_comelit_intercom_lo.Rtsp.Clients.{TcpClient, deliver_all, dead_writers}
use hass_comelit_intercom_lo.Rtsp.Broadcast.{Broadcast, deliver_all-Broadcast}
use hass_comelit_intercom_lo.Rtsp.Fragments.{process_all}
use hass_comelit_intercom_lo.Rtsp.RoundTrip.{SameNals, process_all-packetize}

-- A receiver before its first packet, and the rest of an IDR slice of 3000 bytes.
abbrev receiver : Receiver
unfolding Queues.init
receiver = Queues.init 7 8 9

abbrev slice : Bytes
slice = replicate 3000 7

abbrev server : Server
unfolding Servers.init
server = Servers.init

receiver-IsBounded : IsBounded receiver
unfolding receiver
receiver-IsBounded = record { nals = omega arith; rtsp_nals = tt; rtsp_audio = tt; rtsp_rtp = tt }

server-IsValid : IsValid server
unfolding server
server-IsValid = record {
  video_seq_fits = omega arith;
  audio_seq_fits = omega arith;
  audio_ts_fits = omega arith;
  video_port_fits = omega arith;
  audio_port_fits = omega arith;
  clock = record { out_fits = omega arith; offset_fits = omega arith; in_step = tt };
}

-- The slice is cut into three fragments, and put together again.
three_fragments : length (packetize (0x65 ∷ slice)) ≡ 3
unfolding packetize fragments
three_fragments = refl

process_all-packetize_example :
    SameNals
      (process_all 90000 (packetize (0x65 ∷ slice)) receiver)
      (queue_nal 90000 (start_code ++ 0x65 ∷ slice) receiver)
process_all-packetize_example =
    process_all-packetize 90000 0x65 slice receiver (omega arith) (omega arith) (omega arith)

translate_video_ts_forward_example :
    ((translate_video_ts 5000 server).video_ts_out
      ≡ (server.video_ts_out + advance server.last_device_ts server.video_ts_rebase_pending 5000)
        % u32)
    × (advance server.last_device_ts server.video_ts_rebase_pending 5000 ≤ 0x80000000)
translate_video_ts_forward_example =
    translate_video_ts_forward 5000 server (omega arith) server-IsValid.clock

send_h264-Sent_example :
    Returns
      (λ t.
        Sent (length (packetize (0x65 ∷ slice))) (octets_of (packetize (0x65 ∷ slice))) server t
        × Broadcasts (packetize (0x65 ∷ slice)) server t)
      (send_h264 (0x65 ∷ slice) server)
send_h264-Sent_example = send_h264-Sent (0x65 ∷ slice) server server-IsValid

pass_through-Forwarded_example :
    Returns
      (Forwarded 0x80 96 (0x65 ∷ 1 ∷ 2 ∷ []) server)
      (pass_through (0x80 ∷ 96 ∷ 0 ∷ 1 ∷ 0 ∷ 0 ∷ 0 ∷ 9 ∷ 1 ∷ 2 ∷ 3 ∷ 4 ∷ 0x65 ∷ 1 ∷ 2 ∷ []) server)
pass_through-Forwarded_example =
    pass_through-Forwarded 0x80 96 0 1 0 0 0 9 1 2 3 4 0x65 (1 ∷ 2 ∷ []) server (ground arith)
      server-IsValid

reset-Rewound_example : Returns (Rewound server) (reset 10 20 server)
reset-Rewound_example = reset-Rewound 10 20 server server-IsValid

-- A video packet of the server's, as the receiver gets it.
abbrev packet : Bytes
packet = 0x80 ∷ 0xE0 ∷ 0 ∷ 1 ∷ 0 ∷ 0 ∷ 0 ∷ 9 ∷ 0 ∷ 0 ∷ 0 ∷ 5 ∷ 0x65 ∷ 1 ∷ []

packet_built : build_rtp 96 1 9 5 (0x65 ∷ 1 ∷ []) true ≡ ok packet
unfolding build_rtp pack_byte pack_be16 pack_be32
packet_built = ground arith

on_udp_packet-IsBounded_example :
    Returns IsBounded (on_udp_packet (0x00 ∷ 0x06 ∷ 14 ∷ 0 ∷ 8 ∷ 0 ∷ 0 ∷ 0 ∷ packet) receiver)
on_udp_packet-IsBounded_example =
    on_udp_packet-IsBounded (0x00 ∷ 0x06 ∷ 14 ∷ 0 ∷ 8 ∷ 0 ∷ 0 ∷ 0 ∷ packet) receiver
      receiver-IsBounded

-- A client for both media, one that is closing, and one for the audio alone.
abbrev clients : List TcpClient
clients =
    (record {
      writer = 1;
      video_ch = some 0;
      audio_ch = some 2;
      is_closing = false;
      is_broken = false;
      written = [];
    })
    ∷ (record {
      writer = 2;
      video_ch = some 0;
      audio_ch = none;
      is_closing = true;
      is_broken = false;
      written = [];
    })
    ∷ (record {
      writer = 3;
      video_ch = none;
      audio_ch = some 0;
      is_closing = false;
      is_broken = false;
      written = [];
    })
    ∷ []

deliver_all-Broadcast_example :
    Broadcast true 0 packet clients
      (deliver_all true 0 packet clients)
      (dead_writers true 0 packet clients)
deliver_all-Broadcast_example = deliver_all-Broadcast true 0 packet clients
