-- ===== src/Config/Parse.antt =====
-- config_reader.py: `_parse_config`. The values keep whatever type the device's JSON gives them.
use hass_comelit_intercom_lo.Base.{
  ℕ, zero, suc, ◌+◌, Bool, true, false, List, [], ◌∷◌, ◌++◌, Result, ok, err, ◌>>=◌, key_error,
  attribute_error, type_error,
}
use hass_comelit_intercom_lo.Base.Bytes.{Str}
use hass_comelit_intercom_lo.Config.Json.{
  Json, null, other_number, boolean, number, text, array, object, no_items, item, no_fields, field,
  get_or, iterate,
}
use hass_comelit_intercom_lo.Config.Keys.{
  vip_key, user_parameters_key, apt_address_key, apt_subaddress_key, entrance_key, opendoor_key,
  actuator_key, camera_key, id_key, name_key, output_index_key, secure_mode_key, module_index_key,
  rtsp_url_key, rtsp_user_key, rtsp_password_key,
}

-- `Door`, `Camera` and `DeviceConfig` as they are parsed.
pub record DoorEntry : Type 0 where
  pub id : Json
  pub index : ℕ
  pub name : Json
  pub apt_address : Json
  pub output_index : Json
  pub secure_mode : Json
  pub is_actuator : Bool
  pub module_index : Json

pub record CameraEntry : Type 0 where
  pub id : Json
  pub name : Json
  pub rtsp_url : Json
  pub rtsp_user : Json
  pub rtsp_password : Json

pub record ParsedConfig : Type 0 where
  pub apt_address : Json
  pub apt_subaddress : Json
  pub caller_address : Json
  pub doors : List DoorEntry
  pub cameras : List CameraEntry

-- The address of the first entrance, where the book is there and not empty.
unfoldable pub caller_of_book : Json → Result Json
caller_of_book (array no_items) = ok (text [])
caller_of_book (array (item value rest)) = get_or apt_address_key (text []) value
caller_of_book (object no_fields) = ok (text [])
caller_of_book (object (field name value rest)) = err key_error
caller_of_book (text []) = ok (text [])
caller_of_book (text (c ∷ t)) = err attribute_error
caller_of_book null = ok (text [])
caller_of_book (boolean false) = ok (text [])
caller_of_book (boolean true) = err type_error
caller_of_book (number zero) = ok (text [])
caller_of_book (number (suc n)) = err type_error
caller_of_book other_number = err type_error

-- An opener's module index is the default of `Door`.
unfoldable pub module_index_of : Bool → Json → Result Json
module_index_of false value = ok (number 0)
module_index_of true value = get_or module_index_key (number 0) value

unfoldable pub parse_door : Bool → ℕ → Json → Result DoorEntry
unfolding module_index_of
parse_door is_actuator door_index value = do
  id ← get_or id_key (number door_index) value
  name ← get_or name_key (text []) value
  apt_address ← get_or apt_address_key (text []) value
  output_index ← get_or output_index_key (number 0) value
  secure_mode ← get_or secure_mode_key (boolean false) value
  module_index ← module_index_of is_actuator value
  ok (record {
    id = id;
    index = door_index;
    name = name;
    apt_address = apt_address;
    output_index = output_index;
    secure_mode = secure_mode;
    is_actuator = is_actuator;
    module_index = module_index;
  })

-- The loop over the openers: the entries, and the index behind the last one.
unfoldable pub parse_openers : ℕ → List Json → Result (List DoorEntry × ℕ)
unfolding parse_door
parse_openers door_index [] = ok ([], door_index)
parse_openers door_index (value ∷ rest) = do
  door ← parse_door false door_index value
  (doors, last) ← parse_openers (door_index + 1) rest
  ok (door ∷ doors, last)

-- The loop over the actuators, which does not count.
unfoldable pub parse_actuators : ℕ → List Json → Result (List DoorEntry)
unfolding parse_door
parse_actuators door_index [] = ok []
parse_actuators door_index (value ∷ rest) = do
  door ← parse_door true door_index value
  doors ← parse_actuators door_index rest
  ok (door ∷ doors)

unfoldable pub parse_cameras : List Json → Result (List CameraEntry)
parse_cameras [] = ok []
parse_cameras (value ∷ rest) = do
  id ← get_or id_key (number 0) value
  name ← get_or name_key (text []) value
  rtsp_url ← get_or rtsp_url_key (text []) value
  rtsp_user ← get_or rtsp_user_key (text []) value
  rtsp_password ← get_or rtsp_password_key (text []) value
  cameras ← parse_cameras rest
  ok (
      record {
        id = id;
        name = name;
        rtsp_url = rtsp_url;
        rtsp_user = rtsp_user;
        rtsp_password = rtsp_password;
      }
      ∷ cameras)

-- for item in user_params.get(book, [])
unfoldable pub entries : Str → Json → Result (List Json)
entries book user_params = do value ← get_or book (array no_items) user_params; iterate value

unfoldable pub parse_config : Json → Result ParsedConfig
unfolding caller_of_book parse_openers parse_actuators parse_cameras entries
parse_config value = do
  vip ← get_or vip_key (object no_fields) value
  apt_address ← get_or apt_address_key (text []) vip
  apt_subaddress ← get_or apt_subaddress_key (number 0) vip
  user_params ← get_or user_parameters_key (object no_fields) vip
  entrance_book ← get_or entrance_key (array no_items) user_params
  caller ← caller_of_book entrance_book
  openers ← entries opendoor_key user_params
  (doors, door_index) ← parse_openers 0 openers
  actuators ← entries actuator_key user_params
  actuator_doors ← parse_actuators door_index actuators
  cameras ← entries camera_key user_params
  parsed_cameras ← parse_cameras cameras
  ok (record {
    apt_address = apt_address;
    apt_subaddress = apt_subaddress;
    caller_address = caller;
    doors = doors ++ actuator_doors;
    cameras = parsed_cameras;
  })
