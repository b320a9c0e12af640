-- ===== src/Scheduler/Tests.antt =====
-- The theorems on src/scheduler.cpp at a queue of three tasks.
use net_ninja.Common.{
  ℕ, ◌≡◌, ◌⊎◌, refl, Bool, true, false, List, [], ◌∷◌, none, some, ◌==◌, if◌then◌else◌, ok, arith,
}
use net_ninja.Scheduler.{
  State, FiberOrCb, Scheduler, Turn, swap_in, yield_to_ready, yield_to_hold, main_func, choose,
  is_elsewhere, is_busy, begin_turn, fiber_task, end_fiber,
}
use net_ninja.Scheduler.Choice.{IsQueue, IsPassed, IsTaken, choose-IsTaken}
use net_ninja.Scheduler.Turns.{IsValid, IsStarted, begin_turn-IsStarted}
use net_ninja.Scheduler.Ends.{IsEnded, end_fiber-IsEnded, end_fiber-overtaken}

-- Fiber 1 runs.
abbrev states : ℕ → State
states f = if f == 1 then State.exec else State.hold

abbrev queue : List FiberOrCb
queue =
    record { fiber = some 0; cb = none; thread = some 9 }
    ∷ fiber_task 1
    ∷ record { fiber = none; cb = some 4; thread = none }
    ∷ []

abbrev scheduler : Scheduler
scheduler = record {
  fibers = queue;
  active = 1;
  idle = 0;
  stopped = false;
  states = states;
  next = 5;
}

choose_run :
    choose 8 states queue
    ≡ ok (
      some (record { fiber = none; cb = some 4; thread = none }),
      true,
      record { fiber = some 0; cb = none; thread = some 9 } ∷ fiber_task 1 ∷ [],
    )
unfolding choose is_elsewhere is_busy
choose_run = refl

queue-IsQueue : IsQueue queue
queue-IsQueue = (refl, (refl, (refl, tt)))

scheduler-IsValid : IsValid scheduler
scheduler-IsValid = record {
  queue = queue-IsQueue;
  active_bound = omega arith;
  idle_bound = omega arith;
}

choose-IsTaken_example : IsPassed 8 states queue ⊎ IsTaken 8 states queue
choose-IsTaken_example = choose-IsTaken 8 states queue queue-IsQueue

begin_turn-IsStarted_example :
    (tickle_me : Bool) × (turn : Turn) × (s : Scheduler) × (begin_turn scheduler 8 none 3
      ≡ ok (tickle_me, turn, s))
    × IsStarted scheduler 8 none 3 tickle_me turn s
begin_turn-IsStarted_example = begin_turn-IsStarted scheduler 8 none 3 scheduler-IsValid tt refl

end_fiber-IsEnded_example :
    ((s : Scheduler) × (yield_to_ready scheduler 1 ≡ ok s)
      × IsEnded scheduler 1 State.ready (fiber_task 1 ∷ []) (end_fiber s 1))
    × ((s : Scheduler) × (yield_to_hold scheduler 1 ≡ ok s)
        × IsEnded scheduler 1 State.hold [] (end_fiber s 1))
    × IsEnded scheduler 1 State.term [] (end_fiber (main_func scheduler 1 false) 1)
    × IsEnded scheduler 1 State.except [] (end_fiber (main_func scheduler 1 true) 1)
end_fiber-IsEnded_example = end_fiber-IsEnded scheduler 1 refl (omega arith) (omega arith)

end_fiber-overtaken_example :
    (held : Scheduler) × (running : Scheduler) × (yield_to_hold scheduler 1 ≡ ok held)
    × (swap_in held 1 ≡ ok running)
    × (running.states 1 ≡ State.exec)
    × (choose 9 (end_fiber running 1).states (fiber_task 1 ∷ [])
        ≡ ok (some (fiber_task 1), false, []))
end_fiber-overtaken_example = end_fiber-overtaken scheduler 1 9 refl
