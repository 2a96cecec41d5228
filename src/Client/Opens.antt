-- ===== src/Client/Opens.antt =====
-- client.py: which channel the device's answer to `open_channel` opens.
use hass_comelit_intercom_lo.Base.{
  ℕ, ◌+◌, ◌≤◌, ◌≡◌, ◌≢◌, ◌⊎◌, inl, inr, refl, Bool, true, false, Option, none, some, [], ◌∷◌,
  Result, ok, err, protocol_error, arith, length, All, Returns,
}
use hass_comelit_intercom_lo.Base.Bytes.{Bytes, Str}
use hass_comelit_intercom_lo.Base.Dict.{Dict, get, put, IsDict, get-put_self, str_keys}
use hass_comelit_intercom_lo.Protocol.Channels.{command, parse_command_response}
use hass_comelit_intercom_lo.Client.State.{Channel, Client, new_channel}
use hass_comelit_intercom_lo.Client.Dispatch.{
  update_first, is_pending, opened, dispatch_command, dispatch,
}
use hass_comelit_intercom_lo.Client.Calls.{
  send, send_encoded, next_request_id, open_channel_begin, open_channel_end,
}

-- No call waits for a channel to open.
abbrev pub NonePending : Dict Str Channel → Type 0
NonePending = All (λ e. is_pending e.1 ≡ false)

get-update_first_new :
    (f : Channel → Channel) (name : Str) (ch : Channel) (d : Dict Str Channel)
    → NonePending d
    → is_pending ch ≡ true
    → get name (update_first is_pending f (put name ch d)) ≡ some (f ch)
unfolding get put update_first
get-update_first_new f name ch [] h p = ground (arith, str_keys.beq_iff name name)
get-update_first_new f name ch ((j, w) ∷ d) h p = ground (
  arith,
  str_keys.beq_iff name name,
  str_keys.beq_iff j name,
  get-update_first_new f name ch d h.1 p,
)

-- Some call of another name has left a channel pending.
abbrev pub SomePending : Dict Str Channel → Type 0
SomePending [] = ⊥
SomePending ((j, w) ∷ d) = (is_pending w ≡ true) ⊎ SomePending d

get-update_first_old :
    (f : Channel → Channel) (name : Str) (ch : Channel) (d : Dict Str Channel)
    → SomePending d
    → get name d ≡ none
    → get name (update_first is_pending f (put name ch d)) ≡ some ch
unfolding get put update_first
get-update_first_old f name ch [] h n = elim h [ ]
get-update_first_old f name ch ((j, w) ∷ d) h n = elim h [
  | inl p ↦ ground (arith, p, n, str_keys.beq_iff j name, get-put_self name ch d)
  | inr q ↦ ground (
    arith,
    n,
    q,
    str_keys.beq_iff j name,
    get-put_self name ch d,
    get-update_first_old f name ch d q,
  )
]

get_of_empty : (name : Str) (w : Channel) → get name [] ≡ some w → ⊥
unfolding get
get_of_empty name w e = ground (arith, e)

-- The channel that takes the answer is one that was there before, and pending.
abbrev pub TakenBy : (Channel → Channel) → Dict Str Channel → Dict Str Channel → Type 0
TakenBy f before after =
    (older : Str) × (w : Channel) × (get older before ≡ some w)
    × (is_pending w ≡ true)
    × (get older after ≡ some (f w))

update_first-TakenBy :
    (f : Channel → Channel) (name : Str) (ch : Channel) (d : Dict Str Channel)
    → IsDict d
    → SomePending d
    → get name d ≡ none
    → TakenBy f d (update_first is_pending f (put name ch d))
unfolding get put update_first
update_first-TakenBy f name ch [] u h n = elim h [ ]
update_first-TakenBy f name ch ((j, w) ∷ d) u h n =
    go (is_pending w) refl (update_first-TakenBy f name ch d u.1)
  where
    go :
        (b : Bool)
        → is_pending w ≡ b
        → (SomePending d
            → get name d ≡ none
            → TakenBy f d (update_first is_pending f (put name ch d)))
        → TakenBy f ((j, w) ∷ d) (update_first is_pending f (put name ch ((j, w) ∷ d)))
    go true p rest = (
      j,
      w,
      ground (arith, str_keys.beq_iff j j),
      p,
      ground (arith, p, n, str_keys.beq_iff j name, str_keys.beq_iff j j),
    )
    go false p rest =
        let (older, v, there, pending, taken) =
          rest (elim h [ inl q ↦ absurd (ground (arith, p, q)) | inr q ↦ q ]) (ground (arith, n)) in
        (
          older,
          v,
          ground (arith, there, u.0, str_keys.beq_iff j older),
          pending,
          ground
              (arith, p, n, there, taken, u.0, str_keys.beq_iff j older, str_keys.beq_iff j name),
        )

module _ {Msg : Type 0} (decode_json_body : Bytes → Option Msg) where
  send_encoded_channels :
      (r : Result Bytes) (c : Client Msg) → Client.channels (send_encoded r c).0 ≡ c.channels
  unfolding send_encoded send
  send_encoded_channels (ok packet) c = ground arith
  send_encoded_channels (err e) c = refl

  begun :
      (name : Str) (channel_type : ℕ) (extra_data : Option Str) (trailing_byte : ℕ)
      (wire_name : Option Str) (c : Client Msg)
      → Client.channels
          (open_channel_begin name channel_type extra_data trailing_byte wire_name c).0
        ≡ put name (new_channel name channel_type (c.request_id + 1)) c.channels
  unfolding open_channel_begin next_request_id
  begun name channel_type extra_data trailing_byte wire_name c = send_encoded_channels _ _

  answered :
      (body : Bytes) (seq id : ℕ) (c : Client Msg)
      → parse_command_response body ≡ ok (command, seq, id)
      → seq ≢ 1
      → 4 ≤ length body
      → dispatch decode_json_body 0 body c
        ≡ ok (record c { channels = update_first is_pending (opened id (seq + 1) body) c.channels })
  unfolding dispatch dispatch_command
  answered body seq id c h ne long = ground arith

  -- Where no other call waits for a channel, the device's answer to `open_channel` opens the channel
  -- that was asked for: the call returns it, with the id and the next sequence number that the
  -- answer has.
  pub open_channel-answered :
      (name : Str) (channel_type : ℕ) (extra_data : Option Str) (trailing_byte : ℕ)
      (wire_name : Option Str) (c : Client Msg) (body : Bytes) (seq id : ℕ)
      → NonePending c.channels
      → parse_command_response body ≡ ok (command, seq, id)
      → seq ≢ 1
      → 4 ≤ length body
      → Returns
          (λ c2.
            open_channel_end name c2
            ≡ ok (opened id (seq + 1) body (new_channel name channel_type (c.request_id + 1))))
          (dispatch decode_json_body 0 body
            (open_channel_begin name channel_type extra_data trailing_byte wire_name c).0)
  unfolding open_channel_end is_pending new_channel opened
  open_channel-answered name channel_type extra_data trailing_byte wire_name c body seq id
        none_pending h ne long =
      let ch = new_channel name channel_type (c.request_id + 1) in
      let found : get name
            (update_first is_pending (opened id (seq + 1) body) (put name ch c.channels))
          ≡ some (opened id (seq + 1) body ch) =
        get-update_first_new _ name ch c.channels none_pending (ground arith) in
      rw (answered body seq id _ h ne long) (
        rw (begun name channel_type extra_data trailing_byte wire_name c)
          (rw (open_channel_end, found) refl))

  -- Where an older channel of another name is still pending, as one is whose `open_channel` has timed
  -- out, such an older channel takes the device's answer and is open under its id, and the call
  -- that asked gets a `ProtocolError`. No key stands twice in the registry.
  pub open_channel-answered_stale :
      (name : Str) (channel_type : ℕ) (extra_data : Option Str) (trailing_byte : ℕ)
      (wire_name : Option Str) (c : Client Msg) (body : Bytes) (seq id : ℕ)
      → IsDict c.channels
      → SomePending c.channels
      → get name c.channels ≡ none
      → parse_command_response body ≡ ok (command, seq, id)
      → seq ≢ 1
      → 4 ≤ length body
      → Returns
          (λ c2.
            (open_channel_end name c2 ≡ err protocol_error)
            × TakenBy (opened id (seq + 1) body) c.channels c2.channels)
          (dispatch decode_json_body 0 body
            (open_channel_begin name channel_type extra_data trailing_byte wire_name c).0)
  unfolding open_channel_end new_channel
  open_channel-answered_stale name channel_type extra_data trailing_byte wire_name c body seq id
        keys pending fresh h ne long =
      let ch = new_channel name channel_type (c.request_id + 1) in
      let found : get name
            (update_first is_pending (opened id (seq + 1) body) (put name ch c.channels))
          ≡ some ch =
        get-update_first_old _ name ch c.channels pending fresh in
      rw (answered body seq id _ h ne long) (
        rw (begun name channel_type extra_data trailing_byte wire_name c) (
          rw (open_channel_end, found) refl,
          update_first-TakenBy _ name ch c.channels keys pending fresh,
        ))
