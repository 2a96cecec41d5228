-- ===== src/Lib.antt =====
-- A model of the Comelit intercom integration for Home Assistant
-- (custom_components/comelit_intercom_local): the ICONA bridge protocol, the TCP client, the media
-- path from the device's RTP packets to the local RTSP server, the listener for doorbell events, the
-- video call, and the coordinator that brings them together.
--
-- The program's parts, and the files that model them:
--   * Base: shared types and lemmas. Bytes are lists of numbers below 256, and `struct.pack` and
--     `struct.unpack_from` fail as they do in Python (Base/Bytes); a `dict` keeps its order
--     (Base/Dict); code that may raise returns a `Result` whose errors name the exceptions.
--   * Protocol: protocol.py, one function for each encoder and decoder. Protocol/Header also has
--     `_read_packet` of client.py, on the bytes still to come.
--   * Client: channels.py and client.py. State is the client's fields, Dispatch is `_dispatch`, and
--     Calls has the methods. A method that waits for the device is two functions, before its wait
--     and after it, and packets are dispatched in between; so every interleaving of calls and packets
--     is a sequence of these functions. `_receive_loop` runs on fuel, which Client/Loop shows is
--     enough.
--   * Receiver: rtp_receiver.py. UDP and TCP packets are sorted, H.264 NAL units put together from
--     FU-A fragments, and queued in queues of the source's sizes; Decode is the loop that hands them to
--     PyAV, whose outcomes are an argument.
--   * Rtsp: rtsp_server.py. Video is `_send_h264`, `_translate_video_ts` and one round of each feed
--     loop; Rtcp the sender reports; Session what happens between calls. The clock of a sender report
--     is an argument, read once for a whole `reset` or report round. Sdp, Transport and Requests have
--     the texts of RTSP; Handler is `_handle_client` as a state machine whose phases are its waits, so
--     that the other tasks may change the server in between. Setups, Answers, Registrations, Lifetime
--     and Pipelining are about these.
--   * Vip: vip_listener.py. Parse reads a CTPP message, Listener handles it, and Supervisor restarts the
--     loop after an exception. Times are milliseconds, and arguments.
--   * Doors: ctpp.py (Handshake) and door.py (Opening), each sequence as two functions, before its wait
--     for the device's responses and after it; Connection has `open_door` with its waits, on the shared
--     client or on one of its own.
--   * Models: models.py, the configuration.
--   * VideoCall: video_call.py. A method is a function of the session and the shared client that
--     returns or raises; before each of its waits the other tasks change the client, by functions
--     that the state holds in a list. Session has this notation, Exchange the codec exchange, Start
--     `start` and `_inline_reestablish`, Monitor a round of each task and the door command, Cleanup
--     `_cleanup`. Quiet, Acks and Codec are about the acknowledgements, Logic, Kept, Counters and
--     Sharing about the counter, Released about the registry of channels.
--   * Coordinator: coordinator.py, the buttons of button.py (Doors), and what camera.py and
--     binary_sensor.py ask of it (Entities). `async_start_video` has a
--     function for each stretch between its waits, for a reconnect and for the session's start, so that
--     a stop, a refresh or another start may come in between; a stop that comes while it stops the old
--     session is one behind that. The other methods run in one piece, but for the round of the
--     keepalive (Keepalive), which is two functions as well. What the device answers to a connection
--     is an argument. Steps has all that may happen as events; Abstract is the view of them that
--     Views and Moves relate to the code, with what follows in Safety, Starts, Races and Refresh.
--   * Config: config_reader.py (Parse), on JSON values that keep their type, and what auth.py and push.py
--     make of JSON (Answers).
--   * Token: token.py. Backups chooses the backup from the device's page, Archive finds the token in
--     it. The web interface's answers, `tarfile` and `gzip` are arguments.
--   * Home: the unique ids of button.py (Entities), event.py (Doorbell), config_flow.py (Flow), and
--     __init__.py (Entries, Resources).
--   * Examples: the theorems at concrete inputs.
--
-- The client hands the body of a packet to a channel's queue; the listener and the receiver read
-- their channels' queues; the receiver's queues are those the RTSP server reads. The coordinator owns
-- the client and the server, and lends both to a session. The JSON reader of Python's standard
-- library is a parameter of the dispatcher.
--
-- Bounds and fuel: 16- and 32-bit numbers keep the source's masks as remainders. The FU-A loop runs
-- on as many rounds as there are bytes of payload; a round takes 1398 of them or all. `_receive_loop`
-- takes eight bytes at least in each round. The codec exchange has the source's ten rounds, and the
-- wait for the device's link its five.
--
-- Not modelled: sockets, the cancelling of tasks, log output, the H.264 decoder itself, the JSON text
-- and the calls that send it. Python's `int` is modelled on ASCII digits, and `lower` on ASCII letters.
-- Of the Home Assistant entities only their calls of the coordinator, their unique ids and the
-- configuration flow are modelled; the rest and the dashboard cards are glue to other software.
-- Objects are values: a channel that a call holds is looked up in the registry by its name, and once a
-- client is registered with the RTSP server its registered copy has what is written to it.
mod Base
pub mod Protocol
pub mod Client
pub mod Receiver
pub mod Rtsp
pub mod Vip
pub mod Doors
pub mod Models
pub mod VideoCall
pub mod Coordinator
pub mod Config
pub mod Token
pub mod Home
pub mod Examples
