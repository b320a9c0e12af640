-- ===== src/Scheduler.antt =====
-- src/scheduler.h, src/scheduler.cpp and src/fiber.cpp: the queue of tasks, what a thread does with
-- one, and the states of the fibers. A fiber and a callback are numbers, and a thread is the number of
-- its id; -1, which stands for any thread, is `none`. The switch of contexts is not modelled: a turn of
-- the loop of `run` is cut in two where `swapIn` runs the fiber, and what the fiber does comes between.
pub mod Choice
pub mod Runs
pub mod Turns
pub mod Ends
mod Tests
use net_ninja.Common.{
  ℕ, ◌+◌, ◌-◌, ◌%◌, ◌^◌, Bool, true, false, not, ◌&&◌, ◌||◌, List, [], ◌∷◌, ◌++◌, Option, none,
  some, ◌==◌, if◌then◌else◌, Outcome, ok, aborted, ◌>>=◌,
}

-- `Fiber::State`.
pub data State : Type 0 where
  init hold exec term ready except : State

pub record FiberOrCb : Type 0 where
  pub fiber : Option ℕ
  pub cb : Option ℕ
  pub thread : Option ℕ

-- `states` has the state of each fiber, and `next` is the number of the next one that is made.
pub record Scheduler : Type 0 where
  pub fibers : List FiberOrCb
  pub active : ℕ
  pub idle : ℕ
  pub stopped : Bool
  pub states : ℕ → State
  pub next : ℕ

abbrev pub is_exec : State → Bool
is_exec State.exec = true
is_exec other = false

abbrev pub is_ready : State → Bool
is_ready State.ready = true
is_ready other = false

abbrev pub is_term : State → Bool
is_term State.term = true
is_term other = false

-- TERM or EXCEPT.
abbrev pub is_over : State → Bool
is_over State.term = true
is_over State.except = true
is_over other = false

abbrev pub is_init : State → Bool
is_init State.init = true
is_init other = false

unfoldable pub set_state : Scheduler → ℕ → State → Scheduler
set_state s f x = record s { states = λ g. if g == f then x else s.states g }

-- `Fiber::swapIn`, up to the switch.
unfoldable pub swap_in : Scheduler → ℕ → Outcome Scheduler
swap_in s f = if is_exec (s.states f) then aborted else ok (set_state s f State.exec)

-- `Fiber::YieldToReady` and `Fiber::YieldToHold` of the running fiber.
unfoldable pub yield_to_ready : Scheduler → ℕ → Outcome Scheduler
yield_to_ready s f = if is_exec (s.states f) then ok (set_state s f State.ready) else aborted

unfoldable pub yield_to_hold : Scheduler → ℕ → Outcome Scheduler
yield_to_hold s f = if is_exec (s.states f) then ok (set_state s f State.hold) else aborted

-- The end of `Fiber::MainFunc`: whether the callback threw.
unfoldable pub main_func : Scheduler → ℕ → Bool → Scheduler
main_func s f threw = set_state s f (if threw then State.except else State.term)

-- `Fiber::reset`, of a fiber that has a stack.
unfoldable pub reset_fiber : Scheduler → ℕ → Outcome Scheduler
reset_fiber s f =
    if is_over (s.states f) || is_init (s.states f) then ok (set_state s f State.init) else aborted

abbrev pub is_some : Option ℕ → Bool
is_some none = false
is_some (some a) = true

abbrev pub is_nil : List FiberOrCb → Bool
is_nil [] = true
is_nil (x ∷ l) = false

-- The answer says whether to tickle.
unfoldable pub schedule_no_lock : Scheduler → FiberOrCb → Bool × Scheduler
schedule_no_lock s ft = (
  is_nil s.fibers,
  if is_some ft.fiber || is_some ft.cb then record s { fibers = s.fibers ++ ft ∷ [] } else s,
)

-- `schedule(begin, end)`, to any thread.
unfoldable pub schedule_range : Scheduler → List FiberOrCb → Bool × Scheduler
schedule_range s [] = (false, s)
schedule_range s (ft ∷ l) =
    let (first, s') = schedule_no_lock s ft in
    let (later, s'') = schedule_range s' l in (first || later, s'')

unfoldable pub stopping : Scheduler → Bool
stopping s = s.stopped && is_nil s.fibers && s.active == 0

-- `thread != -1 && thread != GetThreadId()`.
unfoldable pub is_elsewhere : FiberOrCb → ℕ → Bool
is_elsewhere ft thread = elim ft.thread [ none ↦ false | some t ↦ not (t == thread) ]

-- The fiber of the task is running.
unfoldable pub is_busy : (ℕ → State) → FiberOrCb → Bool
is_busy states ft = elim ft.fiber [ none ↦ false | some f ↦ is_exec (states f) ]

-- The loop of `run` over the queue: the task that is taken, `tickle_me`, and what is left.
unfoldable pub choose :
    ℕ → (ℕ → State) → List FiberOrCb → Outcome (Option FiberOrCb × Bool × List FiberOrCb)
choose thread states [] = ok (none, false, [])
choose thread states (ft ∷ l) =
    let rest = choose thread states l in
    if is_elsewhere ft thread
    then (do (chosen, tickle_me, left) ← rest; ok (chosen, true, ft ∷ left))
    else if not (is_some ft.fiber || is_some ft.cb)
    then aborted
    else if is_busy states ft
    then (do (chosen, tickle_me, left) ← rest; ok (chosen, tickle_me, ft ∷ left))
    else ok (some ft, not (is_nil l), l)

-- What a turn of `run` runs: a fiber of the queue, the fiber of a callback, nothing because the task's
-- fiber is over, or the idle fiber; or the loop ends.
pub data Turn : Type 0 where
  of_fiber : ℕ → Turn
  of_cb : ℕ → Turn
  of_nothing : Turn
  of_idle : Turn
  of_end : Turn

-- `--m_activeThreadCount`, a size_t.
abbrev pub one_less : ℕ → ℕ
one_less n = (n + 2 ^ 64 - 1) % 2 ^ 64

-- The fiber that runs a callback: the thread's own one that is over, or a new one.
unfoldable pub callback_fiber : Scheduler → Option ℕ → Outcome (ℕ × Scheduler)
callback_fiber s none = ok (s.next, record (set_state s s.next State.init) { next = s.next + 1 })
callback_fiber s (some f) = do s' ← reset_fiber s f; ok (f, s')

-- The task's own fiber, where it has one that is not over.
unfoldable pub live_fiber : Scheduler → FiberOrCb → Option ℕ
live_fiber s ft = elim ft.fiber [
  | none ↦ none
  | some f ↦ if is_over (s.states f) then none else some f
]

-- The branches over a task that was taken, up to the switch.
unfoldable pub start_task : Scheduler → Option ℕ → FiberOrCb → Outcome (Turn × Scheduler)
start_task s cb_fiber ft = elim (live_fiber s ft) [
  | some f ↦ (do s' ← swap_in s f; ok (Turn.of_fiber f, s'))
  | none ↦ elim ft.cb [
    | some c ↦ (do (f, s') ← callback_fiber s cb_fiber; s'' ← swap_in s' f; ok (Turn.of_cb f, s''))
    | none ↦ ok (Turn.of_nothing, record s { active = one_less s.active })
  ]
]

-- What the turn does with what the loop over the queue gave. An idle fiber that is over ends `run`.
unfoldable pub start_chosen :
    Scheduler → Option ℕ → ℕ → Option FiberOrCb → Outcome (Turn × Scheduler)
start_chosen s cb_fiber idle_fiber (some ft) =
    start_task (record s { active = (s.active + 1) % 2 ^ 64 }) cb_fiber ft
start_chosen s cb_fiber idle_fiber none =
    if is_term (s.states idle_fiber) then ok (Turn.of_end, s) else (do
      s' ← swap_in (record s { idle = (s.idle + 1) % 2 ^ 64 }) idle_fiber
      ok (Turn.of_idle, s'))

-- A turn of the loop of `run` on a thread, up to the switch: `tickle_me`, what runs, and the state.
unfoldable pub begin_turn : Scheduler → ℕ → Option ℕ → ℕ → Outcome (Bool × Turn × Scheduler)
begin_turn s thread cb_fiber idle_fiber = do
  (chosen, tickle_me, left) ← choose thread s.states s.fibers
  (turn, s') ← start_chosen (record s { fibers = left }) cb_fiber idle_fiber chosen
  ok (tickle_me, turn, s')

abbrev pub fiber_task : ℕ → FiberOrCb
fiber_task f = record { fiber = some f; cb = none; thread = none }

-- Behind the switch, for a fiber of the queue.
unfoldable pub end_fiber : Scheduler → ℕ → Scheduler
end_fiber s f =
    let s' = record s { active = one_less s.active } in
    if is_ready (s.states f)
    then (schedule_no_lock s' (fiber_task f)).1
    else if is_over (s.states f)
    then s'
    else set_state s' f State.hold

-- Behind the switch, for the fiber of a callback: the thread's `cb_fiber` afterwards, and the state.
unfoldable pub end_cb : Scheduler → ℕ → Outcome (Option ℕ × Scheduler)
end_cb s f =
    let s' = record s { active = one_less s.active } in
    if is_ready (s.states f)
    then ok (none, (schedule_no_lock s' (fiber_task f)).1)
    else if is_over (s.states f)
    then (do s'' ← reset_fiber s' f; ok (some f, s''))
    else ok (none, set_state s' f State.hold)

-- Behind the switch, for the idle fiber.
unfoldable pub end_idle : Scheduler → ℕ → Scheduler
end_idle s f =
    let s' = record s { idle = one_less s.idle } in
    if is_over (s.states f) then s' else set_state s' f State.hold
