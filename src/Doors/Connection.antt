-- ===== src/Doors/Connection.antt =====
-- door.py: `open_door` and `open_ctpp_channel`, on the channel that is open or on a connection of the
-- door's own.
use hass_comelit_intercom_lo.Base.{false, Option, none, some, Result, ok, err, door_open_error}
use hass_comelit_intercom_lo.Base.Bytes.{Str}
use hass_comelit_intercom_lo.Models.{DeviceConfig, our_address}
use hass_comelit_intercom_lo.Client.State.{Channel, ctpp}
use hass_comelit_intercom_lo.Client.Calls.{get_channel, remove_channel, disconnect}
use hass_comelit_intercom_lo.VideoCall.Session.{
  Call, Act, ◌>>=◌, ◌>>◌, return, lift, call_client, wait, open_channel,
}
use hass_comelit_intercom_lo.VideoCall.Cleanup.{ctpp_name}
use hass_comelit_intercom_lo.Doors.Handshake.{ctpp_init_begin, ctpp_init_end}
use hass_comelit_intercom_lo.Doors.Opening.{Door, open_door_begin, open_door_end}

module _ {Msg : Type 0} where
  -- Every exception becomes a `DoorOpenError`.
  unfoldable pub as_door_error : {A : Type 0} → Call Msg × Result A → Call Msg × Result A
  as_door_error (s, ok a) = (s, ok a)
  as_door_error (s, err e) = (s, err door_open_error)

  unfoldable pub open_ctpp_steps : DeviceConfig → Act Msg Channel
  open_ctpp_steps config = do
    ch ← open_channel ctpp_name ctpp (some (our_address config)) 0 none
    call_client (ctpp_init_begin ch config.apt_address config.apt_subaddress none)
    wait
    call_client (ctpp_init_end ch config.apt_address (our_address config) none false)
    return ch

  unfoldable pub open_ctpp_channel : DeviceConfig → Act Msg Channel
  unfolding open_ctpp_steps as_door_error
  open_ctpp_channel config s = as_door_error (open_ctpp_steps config s)

  -- `_open_door_on_channel`, with its wait.
  unfoldable pub open_on : Channel → Str → Door → Act Msg (Unit {0})
  open_on ch apt_addr door = do
    call_client (open_door_begin ch apt_addr door)
    wait
    call_client (open_door_end ch apt_addr door)

  -- On a client of its own: `connected` is what `connect` and `authenticate` return or raise.
  unfoldable pub own_steps : Result (Unit {0}) → DeviceConfig → Door → Act Msg (Unit {0})
  unfolding open_ctpp_channel open_on
  own_steps connected config door = do
    lift connected
    ch ← open_ctpp_channel config
    open_on ch config.apt_address door

  -- `finally`, on the client that was made for the door.
  unfoldable pub let_go : Call Msg × Result (Unit {0}) → Call Msg × Result (Unit {0})
  let_go (s, r) = (record s { client = disconnect (remove_channel ctpp_name s.client) }, r)

  -- `open_door` on the shared client, where a channel is open. `other` is the state of the client that
  -- is made for the door where none is; it is returned beside the shared one.
  unfoldable pub open_door_with :
      Option Channel
      → Result (Unit {0})
      → DeviceConfig
      → Door
      → Call Msg
      → Call Msg
      → Call Msg × Call Msg × Result (Unit {0})
  unfolding open_on own_steps let_go as_door_error
  open_door_with (some ch) connected config door other s =
      let (s', r) = as_door_error (open_on ch config.apt_address door s) in (s', other, r)
  open_door_with none connected config door other s =
      let (other', r) = let_go (as_door_error (own_steps connected config door other)) in
      (s, other', r)

  unfoldable pub run_open_door :
      Result (Unit {0})
      → DeviceConfig
      → Door
      → Call Msg
      → Call Msg
      → Call Msg × Call Msg × Result (Unit {0})
  unfolding open_door_with
  run_open_door connected config door other s =
      open_door_with (get_channel ctpp_name s.client) connected config door other s
