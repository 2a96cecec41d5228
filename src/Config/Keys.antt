-- ===== src/Config/Keys.antt =====
-- config_reader.py: the keys of the configuration.
use hass_comelit_intercom_lo.Base.{[], ◌∷◌}
use hass_comelit_intercom_lo.Base.Bytes.{Str}

abbrev pub vip_key : Str
vip_key = b'v' ∷ b'i' ∷ b'p' ∷ []

abbrev pub user_parameters_key : Str
user_parameters_key =
    b'u' ∷ b's' ∷ b'e' ∷ b'r' ∷ b'-' ∷ b'p' ∷ b'a' ∷ b'r' ∷ b'a' ∷ b'm' ∷ b'e' ∷ b't' ∷ b'e' ∷ b'r'
    ∷ b's' ∷ []

abbrev pub apt_address_key : Str
apt_address_key = b'a' ∷ b'p' ∷ b't' ∷ b'-' ∷ b'a' ∷ b'd' ∷ b'd' ∷ b'r' ∷ b'e' ∷ b's' ∷ b's' ∷ []

abbrev pub apt_subaddress_key : Str
apt_subaddress_key =
    b'a' ∷ b'p' ∷ b't' ∷ b'-' ∷ b's' ∷ b'u' ∷ b'b' ∷ b'a' ∷ b'd' ∷ b'd' ∷ b'r' ∷ b'e' ∷ b's' ∷ b's'
    ∷ []

abbrev pub entrance_key : Str
entrance_key =
    b'e' ∷ b'n' ∷ b't' ∷ b'r' ∷ b'a' ∷ b'n' ∷ b'c' ∷ b'e' ∷ b'-' ∷ b'a' ∷ b'd' ∷ b'd' ∷ b'r' ∷ b'e'
    ∷ b's' ∷ b's' ∷ b'-' ∷ b'b' ∷ b'o' ∷ b'o' ∷ b'k' ∷ []

abbrev pub opendoor_key : Str
opendoor_key =
    b'o' ∷ b'p' ∷ b'e' ∷ b'n' ∷ b'd' ∷ b'o' ∷ b'o' ∷ b'r' ∷ b'-' ∷ b'a' ∷ b'd' ∷ b'd' ∷ b'r' ∷ b'e'
    ∷ b's' ∷ b's' ∷ b'-' ∷ b'b' ∷ b'o' ∷ b'o' ∷ b'k' ∷ []

abbrev pub actuator_key : Str
actuator_key =
    b'a' ∷ b'c' ∷ b't' ∷ b'u' ∷ b'a' ∷ b't' ∷ b'o' ∷ b'r' ∷ b'-' ∷ b'a' ∷ b'd' ∷ b'd' ∷ b'r' ∷ b'e'
    ∷ b's' ∷ b's' ∷ b'-' ∷ b'b' ∷ b'o' ∷ b'o' ∷ b'k' ∷ []

abbrev pub camera_key : Str
camera_key =
    b'r' ∷ b't' ∷ b's' ∷ b'p' ∷ b'-' ∷ b'c' ∷ b'a' ∷ b'm' ∷ b'e' ∷ b'r' ∷ b'a' ∷ b'-' ∷ b'a' ∷ b'd'
    ∷ b'd' ∷ b'r' ∷ b'e' ∷ b's' ∷ b's' ∷ b'-' ∷ b'b' ∷ b'o' ∷ b'o' ∷ b'k' ∷ []

abbrev pub id_key : Str
id_key = b'i' ∷ b'd' ∷ []

abbrev pub name_key : Str
name_key = b'n' ∷ b'a' ∷ b'm' ∷ b'e' ∷ []

abbrev pub output_index_key : Str
output_index_key =
    b'o' ∷ b'u' ∷ b't' ∷ b'p' ∷ b'u' ∷ b't' ∷ b'-' ∷ b'i' ∷ b'n' ∷ b'd' ∷ b'e' ∷ b'x' ∷ []

abbrev pub secure_mode_key : Str
secure_mode_key = b's' ∷ b'e' ∷ b'c' ∷ b'u' ∷ b'r' ∷ b'e' ∷ b'-' ∷ b'm' ∷ b'o' ∷ b'd' ∷ b'e' ∷ []

abbrev pub module_index_key : Str
module_index_key =
    b'm' ∷ b'o' ∷ b'd' ∷ b'u' ∷ b'l' ∷ b'e' ∷ b'-' ∷ b'i' ∷ b'n' ∷ b'd' ∷ b'e' ∷ b'x' ∷ []

abbrev pub rtsp_url_key : Str
rtsp_url_key = b'r' ∷ b't' ∷ b's' ∷ b'p' ∷ b'-' ∷ b'u' ∷ b'r' ∷ b'l' ∷ []

abbrev pub rtsp_user_key : Str
rtsp_user_key = b'r' ∷ b't' ∷ b's' ∷ b'p' ∷ b'-' ∷ b'u' ∷ b's' ∷ b'e' ∷ b'r' ∷ []

abbrev pub rtsp_password_key : Str
rtsp_password_key =
    b'r' ∷ b't' ∷ b's' ∷ b'p' ∷ b'-' ∷ b'p' ∷ b'a' ∷ b's' ∷ b's' ∷ b'w' ∷ b'o' ∷ b'r' ∷ b'd' ∷ []

abbrev pub response_code_key : Str
response_code_key =
    b'r' ∷ b'e' ∷ b's' ∷ b'p' ∷ b'o' ∷ b'n' ∷ b's' ∷ b'e' ∷ b'-' ∷ b'c' ∷ b'o' ∷ b'd' ∷ b'e' ∷ []

abbrev pub message_key : Str
message_key = b'm' ∷ b'e' ∷ b's' ∷ b's' ∷ b'a' ∷ b'g' ∷ b'e' ∷ []

abbrev pub incoming_call : Str
incoming_call =
    b'i' ∷ b'n' ∷ b'c' ∷ b'o' ∷ b'm' ∷ b'i' ∷ b'n' ∷ b'g' ∷ b'-' ∷ b'c' ∷ b'a' ∷ b'l' ∷ b'l' ∷ []

abbrev pub push_incoming_call : Str
push_incoming_call =
    b'p' ∷ b'u' ∷ b's' ∷ b'h' ∷ b'-' ∷ b'i' ∷ b'n' ∷ b'c' ∷ b'o' ∷ b'm' ∷ b'i' ∷ b'n' ∷ b'g' ∷ b'-'
    ∷ b'c' ∷ b'a' ∷ b'l' ∷ b'l' ∷ []

abbrev pub missed_call_message : Str
missed_call_message =
    b'm' ∷ b'i' ∷ b's' ∷ b's' ∷ b'e' ∷ b'd' ∷ b'-' ∷ b'c' ∷ b'a' ∷ b'l' ∷ b'l' ∷ []

abbrev pub push_missed_call : Str
push_missed_call =
    b'p' ∷ b'u' ∷ b's' ∷ b'h' ∷ b'-' ∷ b'm' ∷ b'i' ∷ b's' ∷ b's' ∷ b'e' ∷ b'd' ∷ b'-' ∷ b'c' ∷ b'a'
    ∷ b'l' ∷ b'l' ∷ []
