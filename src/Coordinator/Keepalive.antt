-- ===== src/Coordinator/Keepalive.antt =====
-- coordinator.py: one round of `_keepalive_loop`, with `send_push_keepalive` of push.py. A round is two
-- functions, before its wait for the device's answer and after it. The text of the probe is an argument.
use hass_comelit_intercom_lo.Base.{
  ℕ, Option, none, some, Result, ok, err, not_connected, if◌then◌else◌,
}
use hass_comelit_intercom_lo.Base.Bytes.{Bytes, Str}
use hass_comelit_intercom_lo.Base.Text.{codes}
use hass_comelit_intercom_lo.Models.{DeviceConfig}
use hass_comelit_intercom_lo.Client.State.{Channel, Client}
use hass_comelit_intercom_lo.Client.Calls.{get_channel, send_json_begin, send_json_timeout}
use hass_comelit_intercom_lo.Coordinator.State.{Coordinator}

-- How a round goes on: the loop has returned, it waits for an answer on a channel, or the probe has
-- raised and the next round follows.
pub data Round : Type 0 where
  returned : Round
  waits_on : Channel → Round
  failed_probe : Round

abbrev pub push_name : Str
push_name = codes "PUSH"

unfoldable pub round_of : Result Channel → Round
round_of (err e) = failed_probe
round_of (ok ch) = waits_on ch

module _ {Msg : Type 0} (call : ℕ) (probe : DeviceConfig → Bytes) where
  unfoldable pub send_on : Option Channel → DeviceConfig → Client Msg → Client Msg × Result Channel
  send_on none config client = (client, err not_connected)
  send_on (some ch) config client =
      let sent = send_json_begin ch call (probe config) client in
      (sent.0, (elim sent.1 [ err e ↦ err e | ok done ↦ ok ch ]))

  -- `send_push_keepalive`, up to its wait.
  unfoldable pub send_push_keepalive : DeviceConfig → Client Msg → Client Msg × Result Channel
  unfolding send_on
  send_push_keepalive config client = send_on (get_channel push_name client) config client

  unfoldable pub keepalive_on :
      Option (Client Msg) → Option DeviceConfig → Coordinator Msg → Coordinator Msg × Round
  unfolding send_push_keepalive round_of
  keepalive_on (some client) (some config) c =
      if client.connected
      then (let sent = send_push_keepalive config client in
          (record c { client = some sent.0 }, round_of sent.1))
      else (c, returned)
  keepalive_on client config c = (c, returned)

  -- A round behind its sleep.
  unfoldable pub keepalive_begin : Coordinator Msg → Coordinator Msg × Round
  unfolding keepalive_on
  keepalive_begin c = keepalive_on c.client c.config c

-- The wait has ended without an answer: the call is cancelled, and the loop goes on.
unfoldable pub keepalive_timeout :
    {Msg : Type 0} → Channel → Option (Client Msg) → Coordinator Msg → Coordinator Msg
keepalive_timeout ch none c = c
keepalive_timeout ch (some client) c = record c { client = some (send_json_timeout ch client) }
