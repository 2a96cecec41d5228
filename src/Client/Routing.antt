-- ===== src/Client/Routing.antt =====
-- What a packet from the device changes in the client: `_dispatch` of client.py.
use hass_comelit_intercom_lo.Base.{
  ℕ, ◌+◌, ◌≡◌, ◌-◌, ◌≤◌, ◌<◌, refl, Bool, true, false, Option, none, some, List, [], ◌∷◌, ◌++◌,
  Result, ok, err, arith, length, Returns, Returns-bind, Returns-if, ◌==◌, leb, drop, if◌then◌else◌,
  sym, append-nil, ◌&&◌, All,
}
use hass_comelit_intercom_lo.Base.Bytes.{
  Bytes, Str, IsByte, pack_le16, pack_le32, unpack_le16, unpack_le32,
}
use hass_comelit_intercom_lo.Base.Packing.{
  Anything, unpack_le16-Returns, unpack_le16_below, unpack_le16_word, pack_le16_of_fits,
  unpack_le32-Returns,
}
use hass_comelit_intercom_lo.Base.Dict.{Dict, get, pop, nat_keys}
use hass_comelit_intercom_lo.Protocol.Header.{encode_header, encode_packet}
use hass_comelit_intercom_lo.Protocol.Channels.{
  command, end, parse_command_response, encode_channel_open_response, channel_open_response_body,
  is_json_body,
}
use hass_comelit_intercom_lo.Client.State.{Channel, Future, Client, write}
use hass_comelit_intercom_lo.Client.Dispatch.{
  update_first, is_pending, is_placeholder, opened, enqueue, device_open, device_close,
  dispatch_command, device_request_id, after_name, or_else, index_zero, finish_call, push_message,
  unsolicited, dispatch_data, dispatch,
}

-- One channel before and after a packet: its identity stays, an open channel stays open under its
-- server id and sequence, and no response that waits is lost.
pub record Kept (ch ch' : Channel) : Type 0 where
  pub name : ch'.name ≡ ch.name
  pub request_id : ch'.request_id ≡ ch.request_id
  pub channel_type : ch'.channel_type ≡ ch.channel_type
  pub still_open : ch.is_open ≡ true → ch'.is_open ≡ true
  pub server_id : ch.is_open ≡ true → ch'.server_channel_id ≡ ch.server_channel_id
  pub sequence : ch.is_open ≡ true → ch'.sequence ≡ ch.sequence
  pub queue : (more : List Bytes) × (ch'.response_queue ≡ ch.response_queue ++ more)

-- The registry keeps its names in their order, and every channel is kept.
pub data Evolves : Dict Str Channel → Dict Str Channel → Type 0 where
  nothing : Evolves [] []
  entry :
      {n : Str} {ch ch' : Channel} {d d' : Dict Str Channel}
      → Kept ch ch'
      → Evolves d d'
      → Evolves ((n, ch) ∷ d) ((n, ch') ∷ d')

refl-Kept : (ch : Channel) → Kept ch ch
refl-Kept ch = record {
  name = refl;
  request_id = refl;
  channel_type = refl;
  still_open = λ h. h;
  server_id = λ _. refl;
  sequence = λ _. refl;
  queue = ([], sym (append-nil ch.response_queue));
}

pub refl-Evolves : (d : Dict Str Channel) → Evolves d d
refl-Evolves [] = nothing
refl-Evolves ((n, ch) ∷ d) = entry (refl-Kept ch) (refl-Evolves d)

opened-Kept :
    (id seq : ℕ) (body : Bytes) (ch : Channel)
    → ch.is_open ≡ false
    → Kept ch (opened id seq body ch)
unfolding opened
opened-Kept id seq body ch h = record {
  name = refl;
  request_id = refl;
  channel_type = refl;
  still_open = λ _. refl;
  server_id = λ o. absurd (ground (arith, o, h));
  sequence = λ o. absurd (ground (arith, o, h));
  queue = ([], sym (append-nil ch.response_queue));
}

update_first-Evolves :
    (test : Channel → Bool) (change : Channel → Channel) (d : Dict Str Channel)
    → ((ch : Channel) → test ch ≡ true → Kept ch (change ch))
    → Evolves d (update_first test change d)
unfolding update_first
update_first-Evolves test change [] h = nothing
update_first-Evolves test change ((n, ch) ∷ d) h =
    go (test ch) refl (update_first-Evolves test change d h)
  where
    go :
        (b : Bool)
        → test ch ≡ b
        → Evolves d (update_first test change d)
        → Evolves
            ((n, ch) ∷ d)
            (if b then (n, change ch) ∷ d else (n, ch) ∷ update_first test change d)
    go true e rest = entry (h ch e) (refl-Evolves d)
    go false e rest = entry (refl-Kept ch) rest

queue-Kept :
    (body : Bytes) (ch : Channel)
    → Kept ch (record ch { response_queue = ch.response_queue ++ body ∷ [] })
queue-Kept body ch = record {
  name = refl;
  request_id = refl;
  channel_type = refl;
  still_open = λ h. h;
  server_id = λ _. refl;
  sequence = λ _. refl;
  queue = (body ∷ [], refl);
}

enqueue-Evolves :
    (id : ℕ) (body : Bytes) (d d' : Dict Str Channel) → enqueue id body d ≡ some d' → Evolves d d'
unfolding enqueue
enqueue-Evolves id body [] d' h = cc
enqueue-Evolves id body ((n, ch) ∷ d) d' h =
    go (ch.server_channel_id == id && ch.is_open) refl (enqueue id body d) refl
      (enqueue-Evolves id body d)
  where
    go :
        (b : Bool)
        → (ch.server_channel_id == id && ch.is_open) ≡ b
        → (o : Option (Dict Str Channel)) → enqueue id body d ≡ o
        → ((d2 : Dict Str Channel) → enqueue id body d ≡ some d2 → Evolves d d2)
        → Evolves ((n, ch) ∷ d) d'
    go true e o p rest =
        let eq : d' ≡ (n, record ch { response_queue = ch.response_queue ++ body ∷ [] }) ∷ d =
          ground (arith, h, e) in
        rw eq (entry (queue-Kept body ch) (refl-Evolves d))
    go false e none p rest = ground (arith, h, e, p)
    go false e (some d2) p rest =
        let eq : d' ≡ (n, ch) ∷ d2 = ground (arith, h, e, p) in
        rw eq (entry (refl-Kept ch) (rest d2 p))

-- The packet with this id and body was handled: no exception, and the registry is kept.
abbrev Handled : {Msg : Type 0} → Client Msg → Result (Client Msg) → Type 0
Handled c = Returns (λ c'. Evolves c.channels (Client.channels c'))

after_name_below :
    (i : Option ℕ) (body : Bytes) (n : ℕ) → All IsByte body → after_name i body ≡ ok n → n < 65536
unfolding after_name
after_name_below none body n h e = ground arith
after_name_below (some i) body n h e = unpack_le16_below body (8 + i + 1) n h e

encode_channel_open_response-Returns :
    (id : ℕ) → id < 65536 → Returns Anything (encode_channel_open_response id)
unfolding encode_channel_open_response channel_open_response_body encode_packet encode_header
    pack_le16 pack_le32
encode_channel_open_response-Returns id h = ground arith

parse_command_response-Returns :
    (body : Bytes)
    → All IsByte body
    → 4 ≤ length body
    → Returns (λ r. r.2 < 65536) (parse_command_response body)
unfolding parse_command_response
parse_command_response-Returns body bytes long =
    Returns-bind Anything _ (unpack_le16 body 0) _ (unpack_le16-Returns body 0 (omega arith))
      λ msg_type _.
        Returns-bind Anything _ (unpack_le16 body 2) _ (unpack_le16-Returns body 2 (omega arith))
          λ seq _.
            Returns-bind (λ n. n < 65536) _
              (if leb 10 (length body) then unpack_le16 body 8 else ok 0) _
              (Returns-if _ (leb 10 (length body)) _ _
                (λ e. unpack_le16_word body 8 bytes (ground (arith, e))) (λ _. omega arith))
              λ id below. below

module _ {Msg : Type 0} (decode_json_body : Bytes → Option Msg) where
  push_message_channels :
      (m : Option Msg) (c : Client Msg)
      → Client.channels (push_message decode_json_body m c) ≡ c.channels
  unfolding push_message
  push_message_channels none c = refl
  push_message_channels (some m) c = ground arith

  unsolicited-Evolves :
      (id : ℕ) (body : Bytes) (c : Client Msg) (o : Option (Dict Str Channel))
      → enqueue id body c.channels ≡ o
      → Evolves c.channels (Client.channels (unsolicited decode_json_body id body c))
  unfolding unsolicited
  unsolicited-Evolves id body c (some d) e =
      rw (unsolicited, e) (enqueue-Evolves id body c.channels d e)
  unsolicited-Evolves id body c none e = rw (unsolicited, e) (go (is_json_body body))
    where
      go :
          (b : Bool)
          → Evolves c.channels (
              Client.channels
                (if b then push_message decode_json_body (decode_json_body body) c else c))
      go true = rw (push_message_channels (decode_json_body body) c) (refl-Evolves c.channels)
      go false = refl-Evolves c.channels

  dispatch_data-Evolves :
      (id : ℕ) (body : Bytes) (c : Client Msg) (o : Option Future)
      → get id c.callbacks ≡ o
      → Evolves c.channels (Client.channels (dispatch_data decode_json_body id body c))
  unfolding dispatch_data finish_call
  dispatch_data-Evolves id body c (some f) e = rw (dispatch_data, e) (go f.done)
    where
      go :
          (b : Bool)
          → Evolves c.channels (
              Client.channels (
                if b then record c { callbacks = pop id c.callbacks } else record c {
                  callbacks = pop id c.callbacks;
                  results = c.results ++ (f.call, body) ∷ [];
                }))
      go true = refl-Evolves c.channels
      go false = refl-Evolves c.channels
  dispatch_data-Evolves id body c none e =
      rw (dispatch_data, e) (unsolicited-Evolves id body c _ refl)

  write_channels : (packet : Bytes) (c : Client Msg) → Client.channels (write packet c) ≡ c.channels
  unfolding write
  write_channels packet c = ground arith

  open_placeholder :
      (id : ℕ) (body : Bytes) (d : Dict Str Channel)
      → Evolves d (update_first is_placeholder (opened id 3 body) d)
  unfolding is_placeholder
  open_placeholder id body d =
      update_first-Evolves is_placeholder (opened id 3 body) d
        λ ch h. opened-Kept id 3 body ch (ground (arith, h))

  open_pending :
      (id seq : ℕ) (body : Bytes) (d : Dict Str Channel)
      → Evolves d (update_first is_pending (opened id seq body) d)
  unfolding is_pending
  open_pending id seq body d =
      update_first-Evolves is_pending (opened id seq body) d
        λ ch h. opened-Kept id seq body ch (ground (arith, h))

  device_request_id_below :
      (body : Bytes)
      → All IsByte body
      → 10 ≤ length body
      → (r : Result ℕ) → after_name (index_zero (drop 8 body)) body ≡ r
      → Returns (λ id. id < 65536) (device_request_id body)
  unfolding device_request_id or_else
  device_request_id_below body bytes long (ok n) e =
      rw (device_request_id, e) (after_name_below (index_zero (drop 8 body)) body n bytes e)
  device_request_id_below body bytes long (err x) e =
      rw (device_request_id, e) (unpack_le16_word body (length body - 3) bytes (omega arith))

  device_open-Handled :
      (body : Bytes) (c : Client Msg)
      → All IsByte body
      → 10 ≤ length body
      → Handled c (device_open decode_json_body body c)
  unfolding device_open
  device_open-Handled body c bytes long =
      Returns-bind (λ id. id < 65536) _ (device_request_id body) _
        (device_request_id_below body bytes long _ refl)
        λ id below.
          Returns-bind Anything _ (encode_channel_open_response id) _
            (encode_channel_open_response-Returns id below)
            λ packet _. rw (write_channels packet c) (open_placeholder id body c.channels)

  device_close-Handled :
      (id : ℕ) (body : Bytes) (c : Client Msg)
      → id < 65536
      → 10 ≤ length body
      → Handled c (device_close decode_json_body id body c)
  unfolding device_close pack_le16 pack_le32
  device_close-Handled id body c below long =
      Returns-bind Anything _ (unpack_le32 body 4) _ (unpack_le32-Returns body 4 (ground arith))
        λ sub _. rw (pack_le16_of_fits id below) (written (sub == 2) _)
    where
      written :
          (b : Bool) (packet : Bytes)
          → Evolves c.channels (Client.channels (if b then write packet c else c))
      written true packet = rw (write_channels packet c) (refl-Evolves c.channels)
      written false packet = refl-Evolves c.channels

  dispatch_command-Handled :
      (body : Bytes) (c : Client Msg)
      → All IsByte body
      → 4 ≤ length body
      → Handled c (dispatch_command decode_json_body body c)
  unfolding dispatch_command parse_command_response
  dispatch_command-Handled body c bytes long =
      Returns-bind (λ r. r.2 < 65536) (λ c'. Evolves c.channels (Client.channels c'))
        (parse_command_response body) _ (parse_command_response-Returns body bytes long)
        λ (msg_type, seq, id) below.
          Returns-if _ (msg_type == command && (seq == 1 && leb 10 (length body))) _ _
            (λ e. device_open-Handled body c bytes (ground (arith, e)))
            λ _.
              Returns-if _ (msg_type == command) _ _
                (λ _. open_pending id (seq + 1) body c.channels)
                λ _.
                  Returns-if _ (msg_type == end && leb 10 (length body)) _ _
                    (λ e. device_close-Handled id body c below (ground (arith, e)))
                    λ _. refl-Evolves c.channels

  -- A packet of bytes is handled without an error, and the registry is kept: the same names in the
  -- same order, every open channel open under its server id and sequence, and no queued response
  -- lost.
  pub dispatch-Handled :
      (id : ℕ) (body : Bytes) (c : Client Msg)
      → All IsByte body
      → Returns
          (λ c'. Evolves c.channels (Client.channels c'))
          (dispatch decode_json_body id body c)
  unfolding dispatch
  dispatch-Handled id body c bytes =
      Returns-if _ (id == 0) _ _
        (λ _.
          Returns-if _ (leb 4 (length body)) _ _
            (λ e. dispatch_command-Handled body c bytes (ground (arith, e)))
            (λ _. refl-Evolves c.channels))
        (λ _. dispatch_data-Evolves id body c _ refl)
