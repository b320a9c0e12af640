-- ===== src/Scheduler/Ends.antt =====
-- How a turn of the loop of `run` in src/scheduler.cpp ends.
use net_ninja.Common.{
  ℕ, ◌+◌, ◌^◌, ◌<◌, ◌≡◌, refl, sym, ap, true, false, List, [], ◌∷◌, ◌++◌, some, arith, append-nil,
  ok,
}
use net_ninja.Scheduler.{
  State, FiberOrCb, Scheduler, is_exec, is_ready, is_over, set_state, swap_in, yield_to_ready,
  yield_to_hold, main_func, schedule_no_lock, choose, is_busy, is_elsewhere, one_less, fiber_task,
  end_fiber,
}
use net_ninja.Scheduler.Choice.{choose_here}
use net_ninja.Scheduler.Runs.{set_state_self, swap_in-ok}

-- How a fiber that ran stands afterwards: its state, and what is queued behind the others. One active
-- thread less is counted.
abbrev pub IsEnded : Scheduler → ℕ → State → List FiberOrCb → Scheduler → Type 0
IsEnded s f x queued s' =
    (s'.states f ≡ x) × (s'.fibers ≡ s.fibers ++ queued) × (s'.active + 1 ≡ s.active)

end_fiber-ready :
    (s : Scheduler) (f : ℕ)
    → s.states f ≡ State.ready
    → 0 < s.active
    → s.active < 2 ^ 64
    → IsEnded s f State.ready (fiber_task f ∷ []) (end_fiber s f)
unfolding end_fiber schedule_no_lock
end_fiber-ready s f x low high = rw x (x, refl, omega arith)

end_fiber-hold :
    (s : Scheduler) (f : ℕ)
    → s.states f ≡ State.hold
    → 0 < s.active
    → s.active < 2 ^ 64
    → IsEnded s f State.hold [] (end_fiber s f)
unfolding end_fiber set_state
end_fiber-hold s f x low high = rw x (
  set_state_self (record s { active = one_less s.active }) f State.hold,
  sym (append-nil s.fibers),
  omega arith,
)

end_fiber-over :
    (s : Scheduler) (f : ℕ) (x : State)
    → s.states f ≡ x
    → is_ready x ≡ false
    → is_over x ≡ true
    → 0 < s.active
    → s.active < 2 ^ 64
    → IsEnded s f x [] (end_fiber s f)
unfolding end_fiber
end_fiber-over s f x e r o low high = rw (e, r, o) (e, sym (append-nil s.fibers), omega arith)

-- A running fiber that is counted leaves a turn in one of four ways: it yields ready and is queued
-- again, to any thread; it yields on hold, and nothing is queued; it returns; or its callback throws.
pub end_fiber-IsEnded :
    (s : Scheduler) (f : ℕ)
    → s.states f ≡ State.exec
    → 0 < s.active
    → s.active < 2 ^ 64
    → ((s' : Scheduler) × (yield_to_ready s f ≡ ok s')
        × IsEnded s f State.ready (fiber_task f ∷ []) (end_fiber s' f))
      × ((s' : Scheduler) × (yield_to_hold s f ≡ ok s')
          × IsEnded s f State.hold [] (end_fiber s' f))
      × IsEnded s f State.term [] (end_fiber (main_func s f false) f)
      × IsEnded s f State.except [] (end_fiber (main_func s f true) f)
unfolding yield_to_ready yield_to_hold main_func set_state
end_fiber-IsEnded s f x low high = (
  (
    set_state s f State.ready,
    rw x refl,
    end_fiber-ready (set_state s f State.ready) f (set_state_self s f State.ready) low high,
  ),
  (
    set_state s f State.hold,
    rw x refl,
    end_fiber-hold (set_state s f State.hold) f (set_state_self s f State.hold) low high,
  ),
  end_fiber-over (set_state s f State.term) f State.term (set_state_self s f State.term) refl refl
      low high,
  end_fiber-over (set_state s f State.except) f State.except (set_state_self s f State.except) refl
      refl low high,
)

-- A fiber that yields on hold can be queued and swapped in by a second thread before the first thread
-- ends its turn. That thread then sets it on hold while it runs, and a third one takes it again.
pub end_fiber-overtaken :
    (s : Scheduler) (f thread : ℕ)
    → s.states f ≡ State.exec
    → (held : Scheduler) × (running : Scheduler) × (yield_to_hold s f ≡ ok held)
      × (swap_in held f ≡ ok running)
      × (running.states f ≡ State.exec)
      × (choose thread (end_fiber running f).states (fiber_task f ∷ [])
          ≡ ok (some (fiber_task f), false, []))
unfolding yield_to_hold end_fiber set_state is_elsewhere is_busy
end_fiber-overtaken s f thread x =
    let held = set_state s f State.hold in
    let running = set_state held f State.exec in
    let on : running.states f ≡ State.exec = set_state_self held f State.exec in
    let off : (end_fiber running f).states f ≡ State.hold =
      rw on (set_state_self running f State.hold) in
    (
      held,
      running,
      rw x refl,
      swap_in-ok held f (ap is_exec (set_state_self s f State.hold)),
      on,
      choose_here thread (end_fiber running f).states (fiber_task f) [] refl (ap is_exec off),
    )
