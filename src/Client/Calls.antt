-- ===== src/Client/Calls.antt =====
-- client.py: the calls that the other parts make. A call that waits for the device is two functions,
-- before the wait and after it; packets are dispatched in between. A call that raises may have
-- changed the client before, so the client is returned beside the result.
use hass_comelit_intercom_lo.Base.{
  ℕ, zero, suc, ◌+◌, ◌==◌, Bool, false, ◌&&◌, not, Option, none, some, [], ◌∷◌, ◌++◌, Result, ok,
  err, connection_error, protocol_error, incomplete_read, if◌then◌else◌, Error,
}
use hass_comelit_intercom_lo.Base.Bytes.{Bytes, Str}
use hass_comelit_intercom_lo.Base.Dict.{get, put, pop, nat_keys, str_keys}
use hass_comelit_intercom_lo.Protocol.Header.{encode_packet, read_packet}
use hass_comelit_intercom_lo.Protocol.Channels.{encode_channel_open, encode_channel_close}
use hass_comelit_intercom_lo.Client.State.{Channel, Client, new_channel, uaut}
use hass_comelit_intercom_lo.Client.Dispatch.{dispatch}

unfoldable pub is_usable : Channel → Bool
is_usable ch = ch.is_open && not (ch.server_channel_id == 0)

module _ {Msg : Type 0} where
  -- `_send`: with no writer it raises, and whether the socket takes the bytes is not modelled.
  unfoldable pub send : Bytes → Client Msg → Client Msg × Result (Unit {0})
  send packet c =
      if c.has_writer
      then (record c { sent = c.sent ++ packet ∷ [] }, ok tt)
      else (c, err connection_error)

  -- A packet whose encoding raises is not sent.
  unfoldable pub send_encoded : Result Bytes → Client Msg → Client Msg × Result (Unit {0})
  send_encoded (ok packet) c = send packet c
  send_encoded (err e) c = (c, err e)

  unfoldable pub next_request_id : Client Msg → ℕ × Client Msg
  next_request_id c = (c.request_id + 1, record c { request_id = c.request_id + 1 })

  unfoldable pub next_client_sequence : Client Msg → ℕ × Client Msg
  next_client_sequence c = (c.sequence + 1, record c { sequence = c.sequence + 1 })

  -- `open_channel` up to its wait: the channel is registered before the packet is encoded and sent.
  unfoldable pub open_channel_begin :
      Str → ℕ → Option Str → ℕ → Option Str → Client Msg → Client Msg × Result (Unit {0})
  unfolding next_request_id
  open_channel_begin name channel_type extra_data trailing_byte wire_name c =
      let protocol_name : Str = elim wire_name [
        | none ↦ name
        | some [] ↦ name
        | some (b ∷ w) ↦ b ∷ w
      ] in
      let (request_id, c1) = next_request_id c in
      let channel = new_channel name channel_type request_id in
      let c2 = record c1 { channels = put name channel c1.channels } in
      send_encoded
        (encode_channel_open protocol_name channel_type 1 request_id extra_data trailing_byte) c2

  -- `open_channel` after its wait: the channel, or a `ProtocolError` where it has timed out. The call
  -- holds the channel itself, which is the registry's while no other call has taken the name or
  -- removed it; it is looked up there.
  unfoldable pub open_channel_end : Str → Client Msg → Result Channel
  open_channel_end name c = elim (get name c.channels) [
    | none ↦ err protocol_error
    | some ch ↦ if ch.open_event then ok ch else err protocol_error
  ]

  unfoldable pub close_channel : Str → Client Msg → Client Msg × Result (Unit {0})
  unfolding next_client_sequence
  close_channel name c = elim (get name c.channels) [
    | none ↦ (c, ok tt)
    | some ch ↦
        let (seq, c1) = next_client_sequence (record c { channels = pop name c.channels }) in
        send_encoded (encode_channel_close seq ch.server_channel_id) c1
  ]

  -- `send_json` up to its wait, with the message's JSON text.
  unfoldable pub send_json_begin : Channel → ℕ → Bytes → Client Msg → Client Msg × Result (Unit {0})
  unfolding is_usable
  send_json_begin ch call text c =
      if is_usable ch
      then send_encoded (encode_packet ch.server_channel_id text) (record c {
        callbacks = put ch.server_channel_id (record { call = call; done = false }) c.callbacks;
      })
      else (c, err protocol_error)

  -- Where the wait has timed out, or was cancelled, nobody waits any more.
  unfoldable pub send_json_timeout : Channel → Client Msg → Client Msg
  send_json_timeout ch c = record c { callbacks = pop ch.server_channel_id c.callbacks }

  unfoldable pub send_binary : Channel → Bytes → Client Msg → Client Msg × Result (Unit {0})
  unfolding is_usable
  send_binary ch payload c =
      if is_usable ch
      then send_encoded (encode_packet ch.server_channel_id payload) c
      else (c, err protocol_error)

  -- `read_response`: the oldest response of the channel of that name, and `none` on a timeout.
  unfoldable pub take_response : Str → Option Channel → Client Msg → Option Bytes × Client Msg
  take_response name none c = (none, c)
  take_response name (some ch) c = elim ch.response_queue [
    | [] ↦ (none, c)
    | body ∷ rest ↦ (
      some body,
      record c { channels = put name (record ch { response_queue = rest }) c.channels },
    )
  ]

  unfoldable pub read_response : Str → Client Msg → Option Bytes × Client Msg
  unfolding take_response
  read_response name c = take_response name (get name c.channels) c

  unfoldable pub register_placeholder_channel : Str → Client Msg → Client Msg
  register_placeholder_channel name c = record c {
    channels = put name (new_channel name uaut 0) c.channels;
  }

  -- `remove_channel` and `release_placeholder_channel`
  unfoldable pub remove_channel : Str → Client Msg → Client Msg
  remove_channel name c = record c { channels = pop name c.channels }

  unfoldable pub rename_channel : Str → Str → Client Msg → Client Msg
  rename_channel old_name new_name c = elim (get old_name c.channels) [
    | none ↦ c
    | some ch ↦ record c {
      channels = put new_name (record ch { name = new_name }) (pop old_name c.channels);
    }
  ]

  unfoldable pub get_channel : Str → Client Msg → Option Channel
  get_channel name c = elim (get name c.channels) [
    | none ↦ none
    | some ch ↦ if ch.is_open then some ch else none
  ]

  -- `disconnect`: calls that wait are cancelled.
  unfoldable pub disconnect : Client Msg → Client Msg
  disconnect c = record c { connected = false; has_writer = false; channels = []; callbacks = [] }

-- Why `_receive_loop` ended. `starved` is no end of the loop: its fuel ran out.
pub data LoopEnd : Type 0 where
  closed_by_device loop_error starved : LoopEnd

unfoldable pub loop_end : Error → LoopEnd
loop_end incomplete_read = closed_by_device
loop_end _ = loop_error

module _ {Msg : Type 0} (decode_json_body : Bytes → Option Msg) where
  -- `_receive_loop` on all that the device sends until it closes the connection. The idle timeout and
  -- the disconnect callback are left out.
  unfoldable pub receive_loop : ℕ → Bytes → Client Msg → Client Msg × LoopEnd
  unfolding loop_end
  receive_loop zero stream c = (c, starved)
  receive_loop (suc fuel) stream c = elim (read_packet stream) [
    | err e ↦ (record c { connected = false }, loop_end e)
    | ok ((request_id, body), rest) ↦ elim (dispatch decode_json_body request_id body c) [
      | err e ↦ (record c { connected = false }, loop_error)
      | ok c' ↦ receive_loop fuel rest c'
    ]
  ]
