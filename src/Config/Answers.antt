-- ===== src/Config/Answers.antt =====
-- auth.py, config_reader.py and push.py: what is made of the device's JSON answers, and of the messages
-- that it pushes.
use hass_comelit_intercom_lo.Base.{
  Bool, false, ◌||◌, ◌==◌, Option, none, some, [], Result, ok, err, ◌>>=◌, authentication_error,
  protocol_error, Error, if◌then◌else◌,
}
use hass_comelit_intercom_lo.Base.Bytes.{Str}
use hass_comelit_intercom_lo.Base.Dict.{same}
use hass_comelit_intercom_lo.Vip.Listener.{EventType, ring, missed_call}
use hass_comelit_intercom_lo.Config.Json.{Json, number, text, get_or}
use hass_comelit_intercom_lo.Config.Keys.{
  response_code_key, message_key, apt_address_key, incoming_call, push_incoming_call,
  missed_call_message, push_missed_call,
}
use hass_comelit_intercom_lo.Config.Parse.{ParsedConfig, parse_config}

-- code != 200
unfoldable pub is_accepted : Json → Bool
is_accepted (number n) = n == 200
is_accepted value = false

-- The response code of an answer, or else this error.
unfoldable pub check_code : Error → Json → Result (Unit {0})
unfolding is_accepted
check_code e response = do
  code ← get_or response_code_key (number 0) response
  if is_accepted code then ok tt else err e

-- `authenticate`, behind its JSON call.
unfoldable pub authenticate_end : Json → Result (Unit {0})
unfolding check_code
authenticate_end response = check_code authentication_error response

-- `get_device_config`, behind its JSON call.
unfoldable pub get_device_config_end : Json → Result ParsedConfig
unfolding check_code
get_device_config_end response = do
  accepted ← check_code protocol_error response
  parse_config response

-- value in (first, second)
unfoldable pub is_either : Str → Str → Json → Bool
is_either first second (text t) = same t first || same t second
is_either first second value = false

-- A pushed event, with the time and the raw message left to the caller.
pub record PushMessage : Type 0 where
  pub event_type : EventType
  pub apt_address : Json

unfoldable pub parse_push_event : Json → Result (Option PushMessage)
unfolding is_either
parse_push_event raw = do
  msg_type ← get_or message_key (text []) raw
  apt_address ← get_or apt_address_key (text []) raw
  ok (
      if is_either incoming_call push_incoming_call msg_type
      then some (record { event_type = ring; apt_address = apt_address })
      else if is_either missed_call_message push_missed_call msg_type
      then some (record { event_type = missed_call; apt_address = apt_address })
      else none)
