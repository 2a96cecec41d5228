-- ===== src/Vip/Supervisor.antt =====
-- vip_listener.py: `_listen_loop`, which starts its loop again after an exception, and gives up after
-- too many in a short time. Times are milliseconds.
use hass_comelit_intercom_lo.Base.{
  ℕ, suc, ◌+◌, ◌-◌, ◌≤◌, ◌≡◌, refl, ◌∙◌, ap, Bool, true, false, List, [], ◌∷◌, ◌++◌, ltb, leb,
  arith, All, length, length-append, if◌then◌else◌,
}

abbrev pub restart_limit : ℕ
restart_limit = 5

abbrev pub restart_window : ℕ
restart_window = 60000

pub record Supervisor : Type 0 where
  pub running : Bool
  pub restart_times : List ℕ
  pub restart_count : ℕ

-- The times that are still in the window.
unfoldable pub recent : ℕ → List ℕ → List ℕ
recent now [] = []
recent now (t ∷ times) =
    let rest = recent now times in if ltb (now - t) restart_window then t ∷ rest else rest

-- An exception of the loop: does the loop end with it?
unfoldable pub on_crash : ℕ → Supervisor → Supervisor × Bool
unfolding recent
on_crash now s =
    let restart_times = recent now s.restart_times ++ now ∷ [] in
    (
      record s { restart_times = restart_times; restart_count = s.restart_count + 1 },
      ltb restart_limit (length restart_times),
    )

-- `start` and `stop_task`
unfoldable pub start : Supervisor → Supervisor
start s = record s { running = true; restart_times = [] }

unfoldable pub stop_task : Supervisor → Supervisor
stop_task s = record s { running = false }

-- The state behind crashes, the latest first.
abbrev pub after_crashes : Supervisor → List ℕ → Supervisor
after_crashes s [] = s
after_crashes s (now ∷ earlier) = (on_crash now (after_crashes s earlier)).0

-- How many of the times are less than the window before now.
abbrev pub count_recent : ℕ → List ℕ → ℕ
count_recent now [] = 0
count_recent now (t ∷ times) =
    if ltb (now - t) 60000 then suc (count_recent now times) else count_recent now times

-- Pruning with an earlier time takes away nothing that is still wanted later.
recent-recent :
    (now before : ℕ) (times : List ℕ)
    → before ≤ now
    → recent now (recent before times) ≡ recent now times
unfolding recent
recent-recent now before [] h = refl
recent-recent now before (t ∷ times) h = ground (arith, recent-recent now before times h)

recent-append : (now : ℕ) (xs ys : List ℕ) → recent now (xs ++ ys) ≡ recent now xs ++ recent now ys
unfolding recent
recent-append now [] ys = refl
recent-append now (x ∷ xs) ys = ground (arith, recent-append now xs ys)

length-recent :
    (now : ℕ) (s : Supervisor) (crashes : List ℕ)
    → s.restart_times ≡ []
    → All (λ t. t ≤ now) crashes
    → length (recent now (after_crashes s crashes).restart_times) ≡ count_recent now crashes
unfolding recent on_crash
length-recent now s [] fresh h = ap (λ ts. length (recent now ts)) fresh
length-recent now s (t ∷ earlier) fresh h =
    let times = (after_crashes s earlier).restart_times in
    let ih = length-recent now s earlier fresh h.1 in
    ap length (recent-append now (recent t times) (t ∷ []))
    ∙ length-append (recent now (recent t times)) (recent now (t ∷ []))
    ∙ ap (λ ts. length ts + length (recent now (t ∷ []))) (recent-recent now t times h.0)
    ∙ ground (arith, ih)

-- From a fresh start, a crash ends the listener exactly if at least five of the earlier crashes,
-- none of which is later, are less than a minute back, although the times are pruned at every crash.
pub on_crash-escalates :
    (now : ℕ) (s : Supervisor) (crashes : List ℕ)
    → s.restart_times ≡ []
    → All (λ t. t ≤ now) crashes
    → (on_crash now (after_crashes s crashes)).1 ≡ leb 5 (count_recent now crashes)
unfolding on_crash
on_crash-escalates now s crashes fresh h =
    let times = (after_crashes s crashes).restart_times in
    ap (λ n. ltb 5 n)
      (length-append (recent now times) (now ∷ [])
        ∙ ap (λ n. n + 1) (length-recent now s crashes fresh h))
    ∙ ground arith
