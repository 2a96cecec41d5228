-- ===== src/Doors/Sequence.antt =====
-- door.py and ctpp.py: what is sent to open a door, in which order.
use hass_comelit_intercom_lo.Base.{◌<◌, ◌≡◌, true, false, [], ◌∷◌, ok, All, map, length}
use hass_comelit_intercom_lo.Base.Bytes.{Bytes, Str}
use hass_comelit_intercom_lo.Protocol.Door.{
  open_door, open_door_confirm, encode_open_door, encode_door_init, encode_actuator_init,
  encode_actuator_open,
}
use hass_comelit_intercom_lo.Client.State.{Channel, Client}
use hass_comelit_intercom_lo.Client.Sends.{
  send_payload, CanSend, packet_on, with_sent, send_payload_lem, send_two_payloads,
  send_third_payload, read_response-CanSend,
}
use hass_comelit_intercom_lo.Doors.Opening.{
  Door, send_open_and_confirm, send_open_and_confirm_for_actuator, with_init, open_door_begin,
  drain_responses, open_door_end,
}

abbrev pub Short : Bytes → Type 0
Short payload = length payload < 65536

module _ {Msg : Type 0} where
  drain_responses-CanSend :
      (ch : Channel) (name : Str) (c : Client Msg)
      → CanSend ch c
      → CanSend ch (drain_responses name c)
  unfolding drain_responses
  drain_responses-CanSend ch name c h =
      read_response-CanSend ch name _ (read_response-CanSend ch name c h)

  -- For a door that is no actuator, on an open channel and with payloads that can be encoded and fit a
  -- packet: open, confirm and the door's init message go out in this order; once the responses are
  -- drained, open and confirm go out again.
  pub open_door_sequence :
      (ch : Channel) (apt : Str) (door : Door) (c c' : Client Msg)
      (unused opening confirm init : Bytes)
      → CanSend ch c
      → CanSend ch c'
      → door.is_actuator ≡ false
      → encode_actuator_init apt door.output_index door.apt_address ≡ ok unused
      → encode_open_door open_door apt door.output_index door.apt_address ≡ ok opening
      → encode_open_door open_door_confirm apt door.output_index door.apt_address ≡ ok confirm
      → encode_door_init apt door.output_index door.apt_address ≡ ok init
      → All Short (opening ∷ confirm ∷ init ∷ [])
      → (open_door_begin ch apt door c
          ≡ (with_sent c (map (packet_on ch) (opening ∷ confirm ∷ init ∷ [])), ok tt))
        × (open_door_end ch apt door c' ≡ (
          with_sent (drain_responses ch.name c') (map (packet_on ch) (opening ∷ confirm ∷ [])),
          ok tt,
        ))
  unfolding open_door_begin with_init open_door_end send_open_and_confirm
  open_door_sequence ch apt door c c' unused opening confirm init h h' regular eu eo ec ei short = (
    rw (regular, eu, eo, ec, ei)
        (rw (send_two_payloads ch opening confirm c h short.0 short.1.0) (
          send_third_payload ch init (packet_on ch opening ∷ packet_on ch confirm ∷ []) c h
            short.1.1.0)),
    rw (regular, eo, ec)
        (send_two_payloads ch opening confirm (drain_responses ch.name c')
          (drain_responses-CanSend ch ch.name c' h') short.0 short.1.0),
  )

  -- For an actuator, on an open channel and with payloads that can be encoded and fit a packet: its own
  -- init message goes out; once the responses are drained, its own open and confirm go out.
  pub open_actuator_sequence :
      (ch : Channel) (apt : Str) (door : Door) (c c' : Client Msg) (init opening confirm : Bytes)
      → CanSend ch c
      → CanSend ch c'
      → door.is_actuator ≡ true
      → encode_actuator_init apt door.output_index door.apt_address ≡ ok init
      → encode_actuator_open apt door.output_index door.apt_address false ≡ ok opening
      → encode_actuator_open apt door.output_index door.apt_address true ≡ ok confirm
      → All Short (init ∷ opening ∷ confirm ∷ [])
      → (open_door_begin ch apt door c ≡ (with_sent c (packet_on ch init ∷ []), ok tt))
        × (open_door_end ch apt door c' ≡ (
          with_sent (drain_responses ch.name c') (map (packet_on ch) (opening ∷ confirm ∷ [])),
          ok tt,
        ))
  unfolding open_door_begin with_init open_door_end send_open_and_confirm_for_actuator
  open_actuator_sequence ch apt door c c' init opening confirm h h' actuator ei eo ec short = (
    rw (actuator, ei) (unfold send_payload in send_payload_lem ch init c h short.0),
    rw (actuator, eo, ec)
        (send_two_payloads ch opening confirm (drain_responses ch.name c')
          (drain_responses-CanSend ch ch.name c' h') short.1.0 short.1.1.0),
  )
