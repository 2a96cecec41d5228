-- ===== src/Examples/Settings.antt =====
-- config_reader.py at a concrete configuration.
use hass_comelit_intercom_lo.Base.{
  ℕ, some, ◌≡◌, ◌++◌, refl, true, false, map, replicate, [], ◌∷◌, ok,
}
use hass_comelit_intercom_lo.Base.Bytes.{Str}
use hass_comelit_intercom_lo.Config.Json.{
  Json, number, text, boolean, array, object, no_items, item, no_fields, field, field_or, get_or,
  list_of, iterate,
}
use hass_comelit_intercom_lo.Config.Keys.{
  vip_key, user_parameters_key, apt_address_key, opendoor_key, actuator_key, name_key,
}
use hass_comelit_intercom_lo.Config.Parse.{
  DoorEntry, ParsedConfig, caller_of_book, module_index_of, parse_door, parse_openers,
  parse_actuators, parse_cameras, entries, parse_config,
}
use hass_comelit_intercom_lo.Config.Indices.{numbers_from}
use hass_comelit_intercom_lo.Home.Entities.{
  restart_notifications, video_buttons, buttons, door_id, unique_id, parse_config-door_ids,
}

abbrev named : Str → Json
named name = object (field name_key (text name) no_fields)

-- One opener and two actuators.
abbrev answer : Json
answer = object (
    field vip_key
      (object (
        field apt_address_key (text (b'S' ∷ b'B' ∷ [])) (
          field user_parameters_key
            (object (
              field opendoor_key (array (item (named (b'g' ∷ [])) no_items)) (
                field actuator_key
                  (array (item (named (b'l' ∷ [])) (item (named (b'r' ∷ [])) no_items)))
                  no_fields)))
            no_fields)))
      no_fields)

abbrev entry : Str → ℕ → DoorEntry
entry name index = record {
  id = number index;
  index = index;
  name = text name;
  apt_address = text [];
  output_index = number 0;
  secure_mode = boolean false;
  is_actuator = false;
  module_index = number 0;
}

abbrev settings : ParsedConfig
settings = record {
  apt_address = text (b'S' ∷ b'B' ∷ []);
  apt_subaddress = number 0;
  caller_address = text [];
  doors =
      entry (b'g' ∷ []) 0
      ∷ record (entry (b'l' ∷ []) 1) { is_actuator = true }
      ∷ record (entry (b'r' ∷ []) 1) { is_actuator = true }
      ∷ [];
  cameras = [];
}

settings_parsed : parse_config answer ≡ ok settings
unfolding parse_config get_or field_or caller_of_book entries iterate list_of parse_openers
    parse_actuators parse_cameras parse_door module_index_of
settings_parsed = refl

-- One opener and two actuators: the buttons of the actuators share their unique id.
parse_config-door_ids_example :
    (n : ℕ) × (m : ℕ) × (map (λ d. d.is_actuator) settings.doors
      ≡ replicate n false ++ replicate m true)
    × (map (unique_id (b'e' ∷ [])) (buttons (some settings))
        ≡ (map (door_id (b'e' ∷ [])) (numbers_from 0 n) ++ replicate m (door_id (b'e' ∷ []) n))
          ++ map
              (unique_id (b'e' ∷ []))
              (video_buttons settings.doors ++ restart_notifications ∷ []))
parse_config-door_ids_example = parse_config-door_ids (b'e' ∷ []) answer settings settings_parsed
