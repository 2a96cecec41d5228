-- ===== src/VideoCall/Logic.antt =====
-- video_call.py: two rules for methods. One for what a method that returns gives, and one for what
-- it leaves as it was, whether it returns or raises.
use hass_comelit_intercom_lo.Base.{◌≡◌, refl, ap, ◌∙◌, List, [], ◌∷◌, Result, ok, err}
use hass_comelit_intercom_lo.Base.Bytes.{Bytes, Str}
use hass_comelit_intercom_lo.Client.State.{Channel, Client}
use hass_comelit_intercom_lo.VideoCall.Session.{
  VideoSession, Call, Act, after, ◌>>=◌, return, lift, set_session, call_client, now_state,
  send_message, read, wait, wait_for, wait_for_open,
}

-- Where the method returns, `P` holds of its value.
abbrev pub Gives : {Msg A : Type 0} → (A → Type 0) → Act Msg A → Type 0
Gives {Msg} {A} P m = (s : Call Msg) (a : A) → (m s).1 ≡ ok a → P a

-- The method leaves this part of the session's fields as it was.
pub record Preserves {Msg A B : Type 0} (part : VideoSession → B) (m : Act Msg A) : Type 0 where
  pub kept : (s : Call Msg) → part (m s).0.session ≡ part s.session

module _ {Msg A B : Type 0} where
  pub Gives-bind :
      (P : A → Type 0) (Q : B → Type 0) (m : Act Msg A) (f : A → Act Msg B)
      → Gives P m
      → ((a : A) → P a → Gives Q (f a))
      → Gives Q (m >>= f)
  Gives-bind P Q m f h k s b returned = go (m s) (λ a e. h s a e) returned
    where
      go : (r : Call Msg × Result A) → ((a : A) → r.1 ≡ ok a → P a) → (after r f).1 ≡ ok b → Q b
      go (s', err e) h' e' = cc
      go (s', ok a) h' e' = k a (h' a refl) s' b e'

  pub Preserves-bind :
      {C : Type 0} (part : VideoSession → C) {m : Act Msg A} {f : A → Act Msg B}
      → Preserves part m
      → ((a : A) → Preserves part (f a))
      → Preserves part (m >>= f)
  Preserves-bind part {m} {f} h k = record { kept = λ s. go s (m s) (h.kept s) }
    where
      go :
          (s : Call Msg) (r : Call Msg × Result A)
          → part r.0.session ≡ part s.session
          → part (after r f).0.session ≡ part s.session
      go s (s', err e) e' = e'
      go s (s', ok a) e' = (k a).kept s' ∙ e'

module _ {Msg B : Type 0} (part : VideoSession → B) where
  pub return-Preserves : {A : Type 0} (a : A) → Preserves {Msg = Msg} part (return a)
  return-Preserves a = record { kept = λ s. refl }

  pub now_state-Preserves : Preserves {Msg = Msg} part now_state
  now_state-Preserves = record { kept = λ s. refl }

  pub lift-Preserves : {A : Type 0} (r : Result A) → Preserves {Msg = Msg} part (lift r)
  lift-Preserves r = record { kept = λ s. refl }

  pub send_message-Preserves :
      (ch : Channel) (payload : Result Bytes) → Preserves {Msg = Msg} part (send_message ch payload)
  unfolding send_message
  send_message-Preserves ch payload = record { kept = λ s. refl }

  pub call_client-Preserves :
      (method : Client Msg → Client Msg × Result (Unit {0})) → Preserves part (call_client method)
  unfolding call_client
  call_client-Preserves method = record { kept = λ s. refl }

  wait_for_session :
      (waits : List (Client Msg → Client Msg)) (s : Call Msg)
      → (wait_for waits s).session ≡ s.session
  unfolding wait_for
  wait_for_session [] s = refl
  wait_for_session (others ∷ rest) s = refl

  pub wait-Preserves : Preserves {Msg = Msg} part wait
  unfolding wait
  wait-Preserves = record { kept = λ s. ap part (wait_for_session s.waits s) }

  pub read-Preserves : (name : Str) → Preserves {Msg = Msg} part (read name)
  unfolding read wait
  read-Preserves name = record { kept = λ s. ap part (wait_for_session s.waits s) }

  pub wait_for_open-Preserves : (name : Str) → Preserves {Msg = Msg} part (wait_for_open name)
  unfolding wait_for_open wait
  wait_for_open-Preserves name = record { kept = λ s. ap part (wait_for_session s.waits s) }

  pub set_session-Preserves :
      (change : VideoSession → VideoSession)
      → ((v : VideoSession) → part (change v) ≡ part v)
      → Preserves {Msg = Msg} part (set_session change)
  set_session-Preserves change h = record { kept = λ s. h s.session }
