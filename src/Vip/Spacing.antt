-- ===== src/Vip/Spacing.antt =====
-- vip_listener.py: the events that the listener fires are spaced, for any messages at any times.
use hass_comelit_intercom_lo.Base.{
  ℕ, ◌+◌, ◌≤◌, ◌≡◌, refl, subst, Bool, true, false, Option, none, some, List, [], ◌∷◌, ◌++◌, arith,
  All, All-append, ltb, leb, length, Returns, Returns-bind, Returns-if, if◌then◌else◌,
}
use hass_comelit_intercom_lo.Base.Bytes.{Bytes, Str, unpack_le16, unpack_le32, unpack_be16}
use hass_comelit_intercom_lo.Base.Packing.{
  Anything, unpack_le16-Returns, unpack_le32-Returns, unpack_be16-Returns,
}
use hass_comelit_intercom_lo.Base.Dict.{put, str_keys}
use hass_comelit_intercom_lo.Client.State.{Client}
use hass_comelit_intercom_lo.Vip.Parse.{CtppMessage, parse_ctpp_message}
use hass_comelit_intercom_lo.Vip.Listener.{
  EventType, ring, door_opened, missed_call, same_type, PushEvent, Vip, or_zero, caller_of,
  fire_event, count_miss, handle_door_opened, handle_fsm_event, handle_vip_event, process_parsed,
  process_result, process_message,
}

parse_ctpp_message-Returns : (bytes : Bytes) → Returns Anything (parse_ctpp_message bytes)
unfolding parse_ctpp_message
parse_ctpp_message-Returns bytes =
    Returns-if Anything (ltb (length bytes) 8) _ _ (λ _. tt)
      λ e.
        Returns-bind Anything Anything (unpack_le16 bytes 0) _
          (unpack_le16-Returns bytes 0 (ground (arith, e)))
          λ _ _.
            Returns-bind Anything Anything (unpack_le32 bytes 2) _
              (unpack_le32-Returns bytes 2 (ground (arith, e)))
              λ _ _.
                Returns-bind Anything Anything (unpack_be16 bytes 6) _
                  (unpack_be16-Returns bytes 6 (ground (arith, e)))
                  λ _ _.
                    Returns-bind Anything Anything _ _
                      (Returns-if Anything (leb 10 (length bytes)) _ _
                        (λ l.
                          Returns-bind Anything Anything (unpack_be16 bytes 8) _
                            (unpack_be16-Returns bytes 8 (ground (arith, l))) (λ _ _. tt))
                        (λ _. tt))
                      λ _ _. tt

-- Each event is at least ten seconds before the later ones of its type.
abbrev pub Spaced : List PushEvent → Type 0
Spaced [] = Unit
Spaced (e ∷ es) =
    All (λ f. same_type e.event_type f.event_type ≡ true → e.timestamp + 10000 ≤ f.timestamp) es
    × Spaced es

-- The fired events are spaced, and `last_fired` has the last of each type.
pub record IsSpaced (v : Vip) : Type 0 where
  pub noted : All (λ e. e.timestamp ≤ or_zero (v.last_fired e.event_type)) v.fired
  pub spaced : Spaced v.fired

All-mono :
    (P Q : PushEvent → Type 0) (es : List PushEvent)
    → ((e : PushEvent) → P e → Q e)
    → All P es
    → All Q es
All-mono P Q [] f h = tt
All-mono P Q (e ∷ es) f h = (f e h.0, All-mono P Q es f h.1)

Spaced-put :
    (es : List PushEvent) (f : PushEvent)
    → Spaced es
    → All (λ e. same_type e.event_type f.event_type ≡ true → e.timestamp + 10000 ≤ f.timestamp) es
    → Spaced (es ++ f ∷ [])
Spaced-put [] f s h = (tt, tt)
Spaced-put (e ∷ es) f s h = (All-append _ es (f ∷ []) s.0 (h.0, tt), Spaced-put es f s.1 h.1)

same_type-eq : (s t : EventType) → same_type s t ≡ true → s ≡ t
same_type-eq ring ring h = refl
same_type-eq door_opened door_opened h = refl
same_type-eq missed_call missed_call h = refl
same_type-eq ring door_opened h = cc
same_type-eq ring missed_call h = cc
same_type-eq door_opened ring h = cc
same_type-eq door_opened missed_call h = cc
same_type-eq missed_call ring h = cc
same_type-eq missed_call door_opened h = cc

same_type_self : (t : EventType) → same_type t t ≡ true
same_type_self ring = refl
same_type_self door_opened = refl
same_type_self missed_call = refl

noted_later :
    (now : ℕ) (t : EventType) (v : Vip) (e : PushEvent)
    → or_zero (v.last_fired t) ≤ now
    → e.timestamp ≤ or_zero (v.last_fired e.event_type)
    → e.timestamp
      ≤ or_zero (if same_type e.event_type t then some now else v.last_fired e.event_type)
noted_later now t v e le h = go (same_type e.event_type t) refl
  where
    go :
        (b : Bool)
        → same_type e.event_type t ≡ b
        → e.timestamp ≤ or_zero (if b then some now else v.last_fired e.event_type)
    go true eq =
        let same : e.event_type ≡ t = same_type-eq _ _ eq in
        let h' : e.timestamp ≤ or_zero (v.last_fired t) =
          subst (λ s. e.timestamp ≤ or_zero (v.last_fired s)) same h in
        omega (arith, h', le)
    go false eq = h

spaced_before :
    (now : ℕ) (t : EventType) (v : Vip) (e : PushEvent)
    → or_zero (v.last_fired t) + 10000 ≤ now
    → e.timestamp ≤ or_zero (v.last_fired e.event_type)
    → same_type e.event_type t ≡ true
    → e.timestamp + 10000 ≤ now
spaced_before now t v e le h eq =
    let h' : e.timestamp ≤ or_zero (v.last_fired t) =
      subst (λ s. e.timestamp ≤ or_zero (v.last_fired s)) (same_type-eq _ _ eq) h in
    omega (arith, h', le)

fire_event-IsSpaced :
    (now : ℕ) (t : EventType) (who : List Str) (v : Vip)
    → IsSpaced v
    → IsSpaced (fire_event now t who v)
unfolding fire_event
fire_event-IsSpaced now t who v h = go (ltb now (or_zero (v.last_fired t) + 10000)) refl
  where
    fired : PushEvent
    fired = record { event_type = t; apt_address = caller_of who; timestamp = now; addresses = who }

    next : Vip
    next = record v {
      last_fired = λ s. if same_type s t then some now else v.last_fired s;
      fired = v.fired ++ fired ∷ [];
    }

    go :
        (b : Bool)
        → ltb now (or_zero (v.last_fired t) + 10000) ≡ b
        → IsSpaced (if b then v else next)
    go true e = h
    go false e =
        let late : or_zero (v.last_fired t) + 10000 ≤ now = ground (arith, e) in
        record {
          noted =
              All-append _ v.fired (fired ∷ [])
                (All-mono _ _ v.fired (λ f k. noted_later now t v f (omega (arith, late)) k)
                  h.noted)
                (rw (same_type_self t) (omega arith), tt);
          spaced =
              Spaced-put v.fired fired h.spaced
                (All-mono _ _ v.fired (λ f k. spaced_before now t v f late k) h.noted);
        }

IsSpaced-if : (b : Bool) {x y : Vip} → IsSpaced x → IsSpaced y → IsSpaced (if b then x else y)
IsSpaced-if true h k = h
IsSpaced-if false h k = k

count_miss-IsSpaced : (p a : ℕ) (v : Vip) → IsSpaced v → IsSpaced (count_miss p a v)
unfolding count_miss
count_miss-IsSpaced p a v h = record { noted = h.noted; spaced = h.spaced }

ruleset spaced_rules = (IsSpaced-if, fire_event-IsSpaced, count_miss-IsSpaced)

handle_fsm_event-IsSpaced :
    (now : ℕ) (msg : CtppMessage) (v : Vip) → IsSpaced v → IsSpaced (handle_fsm_event now msg v)
unfolding handle_fsm_event handle_door_opened
handle_fsm_event-IsSpaced now msg v h = search spaced_rules depth 12

handle_vip_event-IsSpaced :
    (now : ℕ) (msg : CtppMessage) (v : Vip) → IsSpaced v → IsSpaced (handle_vip_event now msg v)
unfolding handle_vip_event
handle_vip_event-IsSpaced now msg v h = search (spaced_rules, handle_fsm_event-IsSpaced)

IsSpaced-first :
    {A : Type 0} (b : Bool) (x y : Vip × A)
    → IsSpaced x.0
    → IsSpaced y.0
    → IsSpaced (if b then x else y).0
IsSpaced-first true x y h k = h
IsSpaced-first false x y h k = k

module _ {Msg : Type 0} where
  process_parsed-IsSpaced :
      (now later : ℕ) (msg : CtppMessage) (v : Vip) (c : Client Msg)
      → IsSpaced v
      → IsSpaced (process_parsed now later msg v c).0
  unfolding process_parsed
  process_parsed-IsSpaced now later msg v c h =
      let seen : Vip = record v {
        last_seen_ts = put (msg.prefix ∷ msg.action ∷ []) (msg.timestamp ∷ now ∷ []) v.last_seen_ts;
      } in
      let k : IsSpaced seen = record { noted = h.noted; spaced = h.spaced } in
      IsSpaced-first _ _ _ k (IsSpaced-if _ (handle_vip_event-IsSpaced later msg seen k) k)

  process_result-IsSpaced :
      (now later : ℕ) (msg : Option CtppMessage) (v : Vip) (c : Client Msg)
      → IsSpaced v
      → IsSpaced (process_result now later msg v c).0
  unfolding process_result
  process_result-IsSpaced now later none v c h = h
  process_result-IsSpaced now later (some msg) v c h = process_parsed-IsSpaced now later msg v c h

  -- A message of any bytes at any time is handled without an error, and afterwards the fired events
  -- of each type are still at least ten seconds apart.
  pub process_message-IsSpaced :
      (now later : ℕ) (bytes : Bytes) (v : Vip) (c : Client Msg)
      → IsSpaced v
      → Returns (λ r. IsSpaced r.0) (process_message now later bytes v c)
  unfolding process_message
  process_message-IsSpaced now later bytes v c h =
      Returns-bind Anything _ (parse_ctpp_message bytes) _ (parse_ctpp_message-Returns bytes)
        λ msg _. process_result-IsSpaced now later msg v c h
