-- ===== src/Client/State.antt =====
-- channels.py and client.py: a channel, and the state of `IconaBridgeClient`.
use hass_comelit_intercom_lo.Base.{ℕ, ◌+◌, Bool, false, List, [], ◌++◌, ◌∷◌, if◌then◌else◌}
use hass_comelit_intercom_lo.Base.Bytes.{Bytes, Str}
use hass_comelit_intercom_lo.Base.Dict.{Dict}

-- `ChannelType`
abbrev pub uaut : ℕ
uaut = 7

abbrev pub ucfg : ℕ
ucfg = 2

abbrev pub info : ℕ
info = 20

abbrev pub ctpp : ℕ
ctpp = 16

abbrev pub cspb : ℕ
cspb = 17

abbrev pub push : ℕ
push = 2

pub record Channel : Type 0 where
  pub name : Str
  pub channel_type : ℕ
  pub request_id : ℕ
  pub server_channel_id : ℕ
  pub sequence : ℕ
  pub is_open : Bool
  pub open_event : Bool
  pub open_response_body : Bytes
  pub response_queue : List Bytes

-- `Channel(name=..., channel_type=..., request_id=...)`
unfoldable pub new_channel : Str → ℕ → ℕ → Channel
new_channel name channel_type request_id = record {
  name = name;
  channel_type = channel_type;
  request_id = request_id;
  server_channel_id = 0;
  sequence = 1;
  is_open = false;
  open_event = false;
  open_response_body = [];
  response_queue = [];
}

unfoldable pub next_sequence : Channel → ℕ × Channel
next_sequence ch = (ch.sequence, record ch { sequence = ch.sequence + 2 })

-- A future that `send_json` waits for, by the number of its call; it is done where the call was
-- cancelled or has timed out.
pub record Future : Type 0 where
  pub call : ℕ
  pub done : Bool

pub record Client (Msg : Type 0) : Type 0 where
  pub connected : Bool
  -- the writer is there
  pub has_writer : Bool
  pub request_id : ℕ
  pub sequence : ℕ
  pub channels : Dict Str Channel
  pub callbacks : Dict ℕ Future
  pub has_push_callback : Bool
  -- what was written to the device
  pub sent : List Bytes
  -- the calls of `send_json` that got a response, and the messages that went to the push callback
  pub results : List (ℕ × Bytes)
  pub pushed : List Msg

unfoldable pub write : {Msg : Type 0} → Bytes → Client Msg → Client Msg
write packet c = if c.has_writer then record c { sent = c.sent ++ packet ∷ [] } else c
