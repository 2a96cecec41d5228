-- ===== src/Coordinator/Abstract.antt =====
-- coordinator.py: an abstract view of the video, and the moves that it may make.
use hass_comelit_intercom_lo.Base.{
  ◌≡◌, refl, Bool, true, false, not, ◌&&◌, ◌||◌, Option, none, some,
}
use hass_comelit_intercom_lo.VideoCall.Session.{VideoSession}
use hass_comelit_intercom_lo.Coordinator.State.{Coordinator}
use hass_comelit_intercom_lo.Coordinator.Steps.{on_some}

-- Whether video runs: the user's stop, the lock of a start that waits for its session or
-- for its reconnect, the session, and the event that it is ready.
pub record Video : Type 0 where
  pub stopped : Bool
  pub starting : Bool
  pub reconnecting : Bool
  pub session : Option VideoSession
  pub ready : Bool

abbrev pub vstop_on : Option VideoSession → Video → Video
vstop_on none v = v
vstop_on (some s) v = record v { session = none; ready = false }

-- The session, if there is one, is taken away.
abbrev pub vstop : Video → Video
vstop v = vstop_on v.session v

-- What may happen to the video in one step. The flag says whether the step is a start of the user's.
pub data Moves : Bool → Video → Video → Type 0 where
  stays : {u : Bool} {v : Video} → Moves u v v
  stops : {u : Bool} {v : Video} → Moves u v (vstop v)
  asks : {u : Bool} {v : Video} → Moves u v (record v { stopped = true })
  stops_and_asks : {u : Bool} {v : Video} → Moves u v (vstop (record v { stopped = true }))
  -- a start begins only where no other runs, and where video is stopped only if it is the user's
  begins :
      {u : Bool} {v : Video}
      → v.stopped && not u ≡ false
      → v.starting || v.reconnecting ≡ false
      → Moves u v (vstop (record v { stopped = false; starting = true; reconnecting = false }))
  -- a start may reconnect first, and then forgets a stop that was asked for meanwhile
  reconnects :
      {u : Bool} {v : Video}
      → v.stopped && not u ≡ false
      → v.starting || v.reconnecting ≡ false
      → Moves u v (record v { reconnecting = true })
  resumes :
      {u : Bool} {v : Video}
      → v.reconnecting ≡ true
      → Moves u v (vstop (record v { stopped = false; starting = true; reconnecting = false }))
  gives_up :
      {u : Bool} {v : Video}
      → v.reconnecting ≡ true
      → Moves u v (vstop (record v { reconnecting = false }))
  fails : {u : Bool} {v : Video} → v.starting ≡ true → Moves u v (record v { starting = false })
  publishes :
      {u : Bool} {v : Video} (s : VideoSession)
      → v.starting ≡ true
      → Moves u v (record v { starting = false; session = some s; ready = true })
  changes :
      {u : Bool} {v : Video} (change : VideoSession → VideoSession)
      → Moves u v (record v { session = on_some change v.session })

-- Behind a reconnect there is no session to be taken away any more.
pub vstop_twice :
    (o : Option VideoSession) (v : Video)
    → v.session ≡ o
    → vstop (record (vstop v) { stopped = false; starting = true; reconnecting = false })
      ≡ vstop (record v { stopped = false; starting = true; reconnecting = false })
vstop_twice none v e = rw e refl
vstop_twice (some s) v e = rw e refl

pub vstop_settled :
    (o : Option VideoSession) (v : Video)
    → v.session ≡ o
    → record (vstop v) { reconnecting = false } ≡ vstop (record v { reconnecting = false })
vstop_settled none v e = rw e refl
vstop_settled (some s) v e = rw e refl

module _ {Msg : Type 0} where
  abbrev pub video : Coordinator Msg → Video
  video c = record {
    stopped = c.video_stopped_by_user;
    starting = c.video_starting;
    reconnecting = c.video_reconnecting;
    session = c.video_session;
    ready = c.video_ready_event;
  }
