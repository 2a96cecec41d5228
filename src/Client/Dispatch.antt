-- ===== src/Client/Dispatch.antt =====
-- client.py: `_dispatch`, which hands each packet from the device to whoever waits for it.
use hass_comelit_intercom_lo.Base.{
  ℕ, suc, ◌+◌, ◌-◌, ◌==◌, Bool, true, false, ◌&&◌, not, Option, none, some, [], ◌∷◌, ◌++◌, Result,
  ok, err, struct_error, ◌>>=◌, leb, if◌then◌else◌, length, drop,
}
use hass_comelit_intercom_lo.Base.Bytes.{Bytes, Str, pack_le16, pack_le32, unpack_le16, unpack_le32}
use hass_comelit_intercom_lo.Base.Dict.{Dict, get, pop, nat_keys}
use hass_comelit_intercom_lo.Protocol.Header.{header_magic}
use hass_comelit_intercom_lo.Protocol.Channels.{
  command, end, encode_channel_open_response, parse_command_response, is_json_body,
}
use hass_comelit_intercom_lo.Client.State.{Channel, Future, Client, write}

-- body.index(0, start), with `start` taken off; `none` is a `ValueError`.
unfoldable pub index_zero : Bytes → Option ℕ
index_zero [] = none
index_zero (b ∷ body) = elim (b == 0) [
  | true ↦ some 0
  | false ↦ (elim (index_zero body) [ none ↦ none | some i ↦ some (suc i) ])
]

-- `except (ValueError, struct.error)`
unfoldable pub or_else : Result ℕ → Result ℕ → Result ℕ
or_else (ok n) other = ok n
or_else (err e) other = other

unfoldable pub after_name : Option ℕ → Bytes → Result ℕ
after_name none body = err struct_error
after_name (some i) body = unpack_le16 body (8 + i + 1)

-- The request id of a channel that the device opens: behind the first zero byte from byte 8 on, or
-- else in the last bytes but one.
unfoldable pub device_request_id : Bytes → Result ℕ
unfolding or_else after_name
device_request_id body =
    or_else (after_name (index_zero (drop 8 body)) body) (unpack_le16 body (length body - 3))

-- The loop with `break`: the first channel that passes the test is changed.
unfoldable pub update_first :
    (Channel → Bool) → (Channel → Channel) → Dict Str Channel → Dict Str Channel
update_first test change [] = []
update_first test change ((name, ch) ∷ rest) =
    if test ch then (name, change ch) ∷ rest else (name, ch) ∷ update_first test change rest

unfoldable pub is_pending : Channel → Bool
is_pending ch = not ch.is_open && ch.server_channel_id == 0 && not (ch.request_id == 0)

unfoldable pub is_placeholder : Channel → Bool
is_placeholder ch = not ch.is_open && ch.server_channel_id == 0 && ch.request_id == 0

unfoldable pub opened : ℕ → ℕ → Bytes → Channel → Channel
opened server_channel_id sequence body ch = record ch {
  server_channel_id = server_channel_id;
  is_open = true;
  sequence = sequence;
  open_response_body = body;
  open_event = true;
}

-- Did the body go to a channel's queue?
unfoldable pub enqueue : ℕ → Bytes → Dict Str Channel → Option (Dict Str Channel)
enqueue request_id body [] = none
enqueue request_id body ((name, ch) ∷ rest) =
    let others = enqueue request_id body rest in
    if ch.server_channel_id == request_id && ch.is_open
    then some ((name, record ch { response_queue = ch.response_queue ++ body ∷ [] }) ∷ rest)
    else elim others [ none ↦ none | some rest' ↦ some ((name, ch) ∷ rest') ]

-- `decode_json_body` is the standard library's JSON reader; `none` is an exception.
module _ {Msg : Type 0} (decode_json_body : Bytes → Option Msg) where
  -- A channel that the device opens is answered, and goes to the first placeholder.
  unfoldable pub device_open : Bytes → Client Msg → Result (Client Msg)
  device_open body c = do
    dev_req_id ← device_request_id body
    response ← encode_channel_open_response dev_req_id
    let c' = write response c
    ok (record c' { channels = update_first is_placeholder (opened dev_req_id 3 body) c'.channels })

  -- The device closes a channel, which is acknowledged; other messages of this type are not.
  unfoldable pub device_close : ℕ → Bytes → Client Msg → Result (Client Msg)
  device_close server_ch_id body c = do
    sub_type ← unpack_le32 body 4
    kind ← pack_le16 end
    seq ← pack_le16 4
    sub ← pack_le32 4
    id ← pack_le16 server_ch_id
    let ack_body : Bytes = kind ++ seq ++ sub ++ id ++ 0x00 ∷ 0x00 ∷ []
    len ← pack_le16 (length ack_body)
    let ack_pkt : Bytes = header_magic ++ len ++ 0x00 ∷ 0x00 ∷ 0x00 ∷ 0x00 ∷ ack_body
    ok (if sub_type == 2 then write ack_pkt c else c)

  unfoldable pub dispatch_command : Bytes → Client Msg → Result (Client Msg)
  unfolding device_open device_close
  dispatch_command body c = do
    (msg_type, seq, server_ch_id) ← parse_command_response body
    let assigned = record c {
      channels = update_first is_pending (opened server_ch_id (seq + 1) body) c.channels;
    }
    if msg_type == command && (seq == 1 && leb 10 (length body))
        then device_open body c
        else if msg_type == command
        then ok assigned
        else if msg_type == end && leb 10 (length body)
        then device_close server_ch_id body c
        else ok c

  unfoldable pub finish_call : Future → ℕ → Bytes → Client Msg → Client Msg
  finish_call future request_id body c =
      let c' = record c { callbacks = pop request_id c.callbacks } in
      if future.done then c' else record c' { results = c'.results ++ (future.call, body) ∷ [] }

  unfoldable pub push_message : Option Msg → Client Msg → Client Msg
  push_message none c = c
  push_message (some msg) c =
      if c.has_push_callback then record c { pushed = c.pushed ++ msg ∷ [] } else c

  -- A packet that no call waits for.
  unfoldable pub unsolicited : ℕ → Bytes → Client Msg → Client Msg
  unfolding push_message
  unsolicited request_id body c = elim (enqueue request_id body c.channels) [
    | some channels ↦ record c { channels = channels }
    | none ↦ if is_json_body body then push_message (decode_json_body body) c else c
  ]

  unfoldable pub dispatch_data : ℕ → Bytes → Client Msg → Client Msg
  unfolding finish_call unsolicited
  dispatch_data request_id body c = elim (get request_id c.callbacks) [
    | some future ↦ finish_call future request_id body c
    | none ↦ unsolicited request_id body c
  ]

  unfoldable pub dispatch : ℕ → Bytes → Client Msg → Result (Client Msg)
  unfolding dispatch_command dispatch_data
  dispatch request_id body c =
      if request_id == 0
      then (if leb 4 (length body) then dispatch_command body c else ok c)
      else ok (dispatch_data request_id body c)
