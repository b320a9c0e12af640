-- ===== src/Scheduler/Turns.antt =====
-- A turn of the loop of `run` in src/scheduler.cpp: how it starts.
use net_ninja.Common.{
  ℕ, ◌+◌, ◌%◌, ◌^◌, ◌<◌, ◌≡◌, refl, inl, inr, Bool, true, false, not, ◌||◌, List, ◌∷◌, ◌++◌, ◌⊎◌,
  Option, arith, ok, Bool-cases,
}
use net_ninja.Scheduler.{
  State, FiberOrCb, Scheduler, Turn, is_exec, is_term, is_nil, set_state, is_busy, is_elsewhere,
  start_chosen, begin_turn,
}
use net_ninja.Scheduler.Choice.{is_skipped, all_skipped, some_elsewhere, IsQueue, choose-IsTaken}
use net_ninja.Scheduler.Runs.{IsTaskRun, IsKept, set_state_self, swap_in-ok, start_task-IsTaskRun}

-- The queue has no empty task, and a thread is counted as active at most once.
pub record IsValid (s : Scheduler) : Type 0 where
  pub queue : IsQueue s.fibers
  pub active_bound : s.active + 1 < 2 ^ 64
  pub idle_bound : s.idle + 1 < 2 ^ 64

-- What runs when no task was taken.
abbrev pub IsIdleRun : Scheduler → ℕ → Turn → Scheduler → Type 0
IsIdleRun s idle_fiber (Turn.of_fiber f) s' = ⊥
IsIdleRun s idle_fiber (Turn.of_cb f) s' = ⊥
IsIdleRun s idle_fiber Turn.of_nothing s' = ⊥
IsIdleRun s idle_fiber Turn.of_idle s' =
    (is_term (s.states idle_fiber) ≡ false)
    × (s'.states idle_fiber ≡ State.exec)
    × (s'.fibers ≡ s.fibers)
    × (s'.active ≡ s.active)
    × (s'.idle ≡ s.idle + 1)
IsIdleRun s idle_fiber Turn.of_end s' = (s.states idle_fiber ≡ State.term) × (s' ≡ s)

-- All tasks are skipped, and the queue stays; or the first one that is not skipped leaves it.
abbrev pub IsStarted : Scheduler → ℕ → Option ℕ → ℕ → Bool → Turn → Scheduler → Type 0
IsStarted s thread cb_fiber idle_fiber tickle_me turn s' =
    ((all_skipped thread s.states s.fibers ≡ true)
      × (tickle_me ≡ some_elsewhere thread s.fibers)
      × IsIdleRun s idle_fiber turn s')
    ⊎ ((pre : List FiberOrCb) × (ft : FiberOrCb) × (post : List FiberOrCb) × (s.fibers
          ≡ pre ++ ft ∷ post)
        × (all_skipped thread s.states pre ≡ true)
        × (is_skipped thread s.states ft ≡ false)
        × (tickle_me ≡ (some_elsewhere thread pre || not (is_nil post)))
        × IsTaskRun s (pre ++ post) s.active cb_fiber ft turn s')

is_term_eq : (x : State) → is_term x ≡ true → x ≡ State.term
is_term_eq State.init h = cc
is_term_eq State.hold h = cc
is_term_eq State.exec h = cc
is_term_eq State.term h = refl
is_term_eq State.ready h = cc
is_term_eq State.except h = cc

-- On a valid scheduler, with a reset callback fiber or none and an idle fiber that is not running, a
-- turn of the loop starts without an abort. Either every task is for another thread or its fiber is
-- running, and the queue stays: the idle fiber runs, unless it has terminated, which ends the loop and
-- changes nothing, and is one more idle thread. Or the first task that is not so leaves the queue, the
-- others keep their order, and one more thread is active: the task's fiber runs, if it is not over, or
-- else its callback, on the fiber that is kept or a new one, if it has one; if not, nothing runs and no
-- thread more is active. It tickles if a task of another thread was passed, or if a task stands behind
-- the one that is taken.
pub begin_turn-IsStarted :
    (s : Scheduler) (thread : ℕ) (cb_fiber : Option ℕ) (idle_fiber : ℕ)
    → IsValid s
    → IsKept s cb_fiber
    → is_exec (s.states idle_fiber) ≡ false
    → (tickle_me : Bool) × (turn : Turn) × (s' : Scheduler) × (begin_turn s thread cb_fiber
          idle_fiber
        ≡ ok (tickle_me, turn, s'))
      × IsStarted s thread cb_fiber idle_fiber tickle_me turn s'
unfolding begin_turn start_chosen set_state
begin_turn-IsStarted s thread cb_fiber idle_fiber v k h =
    elim (choose-IsTaken thread s.states s.fibers v.queue) [
      | inl (c, skipped) ↦ elim (Bool-cases (is_term (s.states idle_fiber))) [
        | inl a ↦ (
          some_elsewhere thread s.fibers,
          Turn.of_end,
          s,
          rw (begin_turn, c, start_chosen, a) refl,
          inl (skipped, refl, (is_term_eq (s.states idle_fiber) a, refl)),
        )
        | inr a ↦
            let counted = record s { idle = (s.idle + 1) % 2 ^ 64 } in
            (
              some_elsewhere thread s.fibers,
              Turn.of_idle,
              set_state counted idle_fiber State.exec,
              rw (begin_turn, c, start_chosen, a, swap_in-ok counted idle_fiber h) refl,
              inl (
                skipped,
                refl,
                (
                  a,
                  set_state_self counted idle_fiber State.exec,
                  refl,
                  refl,
                  omega (arith, v.idle_bound),
                ),
              ),
            )
      ]
      | inr (pre, ft, post, e, skipped, here, t, c) ↦
          let (turn, s', run, runs) =
            start_task-IsTaskRun s (pre ++ post) cb_fiber ft v.active_bound
              (second (is_elsewhere ft thread) (is_busy s.states ft) here) k in
          (
            some_elsewhere thread pre || not (is_nil post),
            turn,
            s',
            rw (begin_turn, c, start_chosen, run) refl,
            inr (pre, ft, post, e, skipped, here, refl, runs),
          )
    ]
  where
    second : (a b : Bool) → (a || b) ≡ false → b ≡ false
    second a b h = ground arith
