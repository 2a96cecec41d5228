-- ===== src/Coordinator/Safety.antt =====
-- coordinator.py: what holds of the video after any steps.
use hass_comelit_intercom_lo.Base.{
  ◌≡◌, refl, sym, ap, subst, Bool, true, false, Option, none, some, List, [], ◌∷◌, All, arith,
}
use hass_comelit_intercom_lo.VideoCall.Session.{VideoSession}
use hass_comelit_intercom_lo.Coordinator.State.{Coordinator}
use hass_comelit_intercom_lo.Coordinator.Steps.{Event, on_some, step, run}
use hass_comelit_intercom_lo.Coordinator.Abstract.{
  Video, vstop_on, vstop, video, Moves, stays, stops, asks, stops_and_asks, begins, reconnects,
  resumes, gives_up, fails, publishes, changes,
}
use hass_comelit_intercom_lo.Coordinator.Moves.{is_user_start, step-Moves}

-- The user has stopped video, no session is there, and none is being started.
pub record IsStopped (v : Video) : Type 0 where
  pub by_user : v.stopped ≡ true
  pub idle : v.starting ≡ false
  pub no_reconnect : v.reconnecting ≡ false
  pub no_session : v.session ≡ none

vstop-none : (v : Video) → v.session ≡ none → vstop v ≡ v
vstop-none v e = ap (λ o. vstop_on o v) e

Moves-IsStopped : {u : Bool} {v v' : Video} → u ≡ false → Moves u v v' → IsStopped v → IsStopped v'
Moves-IsStopped e stays h = h
Moves-IsStopped {v} e stops h = subst IsStopped (sym (vstop-none v h.no_session)) h
Moves-IsStopped e asks h = record {
  by_user = refl;
  idle = h.idle;
  no_reconnect = h.no_reconnect;
  no_session = h.no_session;
}
Moves-IsStopped {v} e stops_and_asks h =
    let v' : Video = record v { stopped = true } in
    subst IsStopped (sym (vstop-none v' h.no_session)) (record {
      by_user = refl;
      idle = h.idle;
      no_reconnect = h.no_reconnect;
      no_session = h.no_session;
    })
Moves-IsStopped {u} {v} e (begins free idle) h = absurd (ground (arith, e, h.by_user, free))
Moves-IsStopped {u} {v} e (reconnects free idle) h = absurd (ground (arith, e, h.by_user, free))
Moves-IsStopped e (resumes held) h = absurd (ground (arith, held, h.no_reconnect))
Moves-IsStopped e (gives_up held) h = absurd (ground (arith, held, h.no_reconnect))
Moves-IsStopped e (fails held) h = absurd (ground (arith, held, h.idle))
Moves-IsStopped e (publishes s held) h = absurd (ground (arith, held, h.idle))
Moves-IsStopped {v} e (changes change) h = record {
  by_user = h.by_user;
  idle = h.idle;
  no_reconnect = h.no_reconnect;
  no_session = ap (λ o. on_some change o) h.no_session;
}

abbrev pub has_session : Option VideoSession → Bool
has_session none = false
has_session (some session) = true

-- The event is set exactly while there is a session.
abbrev pub IsConsistent : Video → Type 0
IsConsistent v = v.ready ≡ has_session v.session

vstop-IsConsistent :
    (o : Option VideoSession) (v : Video) → v.session ≡ o → IsConsistent v → IsConsistent (vstop v)
vstop-IsConsistent none v e h = subst IsConsistent (sym (vstop-none v e)) h
vstop-IsConsistent (some s) v e h = subst IsConsistent (sym (ap (λ o. vstop_on o v) e)) refl

Moves-IsConsistent : {u : Bool} {v v' : Video} → Moves u v v' → IsConsistent v → IsConsistent v'
Moves-IsConsistent stays h = h
Moves-IsConsistent {v} stops h = vstop-IsConsistent v.session v refl h
Moves-IsConsistent asks h = h
Moves-IsConsistent {v} stops_and_asks h =
    vstop-IsConsistent v.session (record v { stopped = true }) refl h
Moves-IsConsistent {v} (begins free idle) h =
    vstop-IsConsistent v.session
      (record v { stopped = false; starting = true; reconnecting = false }) refl h
Moves-IsConsistent (reconnects free idle) h = h
Moves-IsConsistent {v} (resumes held) h =
    vstop-IsConsistent v.session
      (record v { stopped = false; starting = true; reconnecting = false }) refl h
Moves-IsConsistent {v} (gives_up held) h =
    vstop-IsConsistent v.session (record v { reconnecting = false }) refl h
Moves-IsConsistent (fails held) h = h
Moves-IsConsistent (publishes s held) h = refl
Moves-IsConsistent {v} (changes change) h = go v.session h
  where
    go :
        (o : Option VideoSession)
        → v.ready ≡ has_session o
        → v.ready ≡ has_session (on_some change o)
    go none k = k
    go (some s) k = k

module _ {Msg : Type 0} where
  -- Once the user has stopped video, with no session and no start under way that waits for its session
  -- or for its reconnect, nothing but a start of the user's brings a session: not the end of a call, a
  -- restart that was scheduled before, a reconnect, or any other sequence of steps.
  pub run-IsStopped :
      (events : List (Event Msg)) (c : Coordinator Msg)
      → All (λ event. is_user_start event ≡ false) events
      → IsStopped (video c)
      → IsStopped (video (run events c))
  unfolding run
  run-IsStopped [] c autos h = h
  run-IsStopped (event ∷ events) c autos h =
      run-IsStopped events (step event c) autos.1 (Moves-IsStopped autos.0 (step-Moves event c) h)

  -- Where the event that video is ready is set exactly if a session is published, as for a new
  -- coordinator, it is so after any steps.
  pub run-IsConsistent :
      (events : List (Event Msg)) (c : Coordinator Msg)
      → IsConsistent (video c)
      → IsConsistent (video (run events c))
  unfolding run
  run-IsConsistent [] c h = h
  run-IsConsistent (event ∷ events) c h =
      run-IsConsistent events (step event c) (Moves-IsConsistent (step-Moves event c) h)
