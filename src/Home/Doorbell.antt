-- ===== src/Home/Doorbell.antt =====
-- event.py: `_on_push` of the doorbell's event entity.
use hass_comelit_intercom_lo.Base.{List, [], ◌∷◌, ◌++◌}
use hass_comelit_intercom_lo.Base.Bytes.{Str}
use hass_comelit_intercom_lo.Vip.Listener.{EventType, PushEvent, ring, missed_call, door_opened}

-- The events that Home Assistant was told of, with the apartment's address.
abbrev pub Triggered : Type 0
Triggered = List (EventType × Str)

-- An event of another type than those of EVENT_TYPES is passed over.
unfoldable pub trigger : EventType → Str → Triggered → Triggered
trigger ring address told = told ++ (ring, address) ∷ []
trigger missed_call address told = told ++ (missed_call, address) ∷ []
trigger door_opened address told = told

unfoldable pub on_push : PushEvent → Triggered → Triggered
unfolding trigger
on_push event told = trigger event.event_type event.apt_address told
