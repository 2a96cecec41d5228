-- ===== src/Doors/Opening.antt =====
-- door.py: `_open_door_on_channel`, as two functions, before its wait for the responses to the door's
-- init message and after it.
use hass_comelit_intercom_lo.Base.{ℕ, Bool, true, false, Result, ok, err, if◌then◌else◌}
use hass_comelit_intercom_lo.Base.Bytes.{Bytes, Str}
use hass_comelit_intercom_lo.Protocol.Door.{
  open_door, open_door_confirm, encode_open_door, encode_door_init, encode_actuator_init,
  encode_actuator_open,
}
use hass_comelit_intercom_lo.Client.State.{Channel, Client}
use hass_comelit_intercom_lo.Client.Calls.{send_binary, read_response}
use hass_comelit_intercom_lo.Client.Sends.{and_then, send_payload}

pub record Door : Type 0 where
  pub id : ℕ
  pub index : ℕ
  pub name : Str
  pub apt_address : Str
  pub output_index : ℕ
  pub secure_mode : Bool
  pub is_actuator : Bool
  pub module_index : ℕ

module _ {Msg : Type 0} where
  unfoldable pub send_open_and_confirm :
      Channel → Str → Door → Client Msg → Client Msg × Result (Unit {0})
  send_open_and_confirm ch apt door c =
      and_then
        (send_payload ch (encode_open_door open_door apt door.output_index door.apt_address) c)
        (λ c'.
          send_payload ch
            (encode_open_door open_door_confirm apt door.output_index door.apt_address) c')

  unfoldable pub send_open_and_confirm_for_actuator :
      Channel → Str → Door → Client Msg → Client Msg × Result (Unit {0})
  send_open_and_confirm_for_actuator ch apt door c =
      and_then
        (send_payload ch (encode_actuator_open apt door.output_index door.apt_address false) c)
        (λ c'.
          send_payload ch (encode_actuator_open apt door.output_index door.apt_address true) c')

  -- The actuator's init message is built for every door, before anything is sent.
  unfoldable pub with_init :
      Result Bytes → Channel → Str → Door → Client Msg → Client Msg × Result (Unit {0})
  with_init (err e) ch apt door c = (c, err e)
  with_init (ok init) ch apt door c =
      if door.is_actuator
      then send_binary ch init c
      else and_then (send_open_and_confirm ch apt door c)
          (λ c'. send_payload ch (encode_door_init apt door.output_index door.apt_address) c')

  unfoldable pub open_door_begin :
      Channel → Str → Door → Client Msg → Client Msg × Result (Unit {0})
  unfolding with_init
  open_door_begin ch apt door c =
      with_init (encode_actuator_init apt door.output_index door.apt_address) ch apt door c

  -- Two responses are taken off the channel's queue, where there are any.
  unfoldable pub drain_responses : Str → Client Msg → Client Msg
  drain_responses name c = (read_response name (read_response name c).1).1

  unfoldable pub open_door_end : Channel → Str → Door → Client Msg → Client Msg × Result (Unit {0})
  open_door_end ch apt door c =
      let c' = drain_responses ch.name c in
      if door.is_actuator
      then send_open_and_confirm_for_actuator ch apt door c'
      else send_open_and_confirm ch apt door c'
