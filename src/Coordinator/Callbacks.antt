-- ===== src/Coordinator/Callbacks.antt =====
-- coordinator.py: the callbacks of the entities.
use hass_comelit_intercom_lo.Base.{ℕ}
use hass_comelit_intercom_lo.Base.Dict.{put, pop, nat_keys}
use hass_comelit_intercom_lo.Vip.Listener.{PushEvent}
use hass_comelit_intercom_lo.Coordinator.State.{Coordinator, push_event, call_each}

module _ {Msg : Type 0} where
  unfoldable pub add_push_callback : ℕ → Coordinator Msg → Coordinator Msg
  add_push_callback callback c = record c {
    push_callbacks = put callback (tt {0}) c.push_callbacks;
  }

  -- The callable that `add_push_callback` returns.
  unfoldable pub remove_push_callback : ℕ → Coordinator Msg → Coordinator Msg
  remove_push_callback callback c = record c { push_callbacks = pop callback c.push_callbacks }

  unfoldable pub add_stop_video_callback : ℕ → Coordinator Msg → Coordinator Msg
  add_stop_video_callback callback c = record c {
    on_stop_video = put callback (tt {0}) c.on_stop_video;
  }

  unfoldable pub remove_stop_video_callback : ℕ → Coordinator Msg → Coordinator Msg
  remove_stop_video_callback callback c = record c { on_stop_video = pop callback c.on_stop_video }

  unfoldable pub add_video_state_change_callback : ℕ → Coordinator Msg → Coordinator Msg
  add_video_state_change_callback callback c = record c {
    on_video_state_change = put callback (tt {0}) c.on_video_state_change;
  }

  unfoldable pub remove_video_state_change_callback : ℕ → Coordinator Msg → Coordinator Msg
  remove_video_state_change_callback callback c = record c {
    on_video_state_change = pop callback c.on_video_state_change;
  }

  unfoldable pub add_vip_state_change_callback : ℕ → Coordinator Msg → Coordinator Msg
  add_vip_state_change_callback callback c = record c {
    on_vip_state_change = put callback (tt {0}) c.on_vip_state_change;
  }

  unfoldable pub remove_vip_state_change_callback : ℕ → Coordinator Msg → Coordinator Msg
  remove_vip_state_change_callback callback c = record c {
    on_vip_state_change = pop callback c.on_vip_state_change;
  }

  -- `_on_push_event`
  unfoldable pub on_push_event : PushEvent → Coordinator Msg → Coordinator Msg
  unfolding call_each
  on_push_event event c = call_each (λ k. push_event k event) c.push_callbacks c
