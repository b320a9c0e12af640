-- ===== src/IoManager/Tests.antt =====
-- Runs of the IOManager, and its theorems at concrete inputs.
use net_ninja.Common.{
  leb, ◌==◌, ◌-◌, ◌&&◌, ◌||◌, not, ◌<◌, arith, ◌+◌, ◌%◌, ◌^◌, ◌≡◌, refl, sym, ap, ◌∙◌, Bool, true,
  false, [], ◌∷◌, ◌++◌, none, some, if◌then◌else◌, length, Outcome, ok, aborted,
}
use mathlib.Core.Path.{subst}
use net_ninja.IoManager.{
  Event, Task, Ctl, IoManager, new_io_manager, context_resize, fresh_contexts, put_context,
  get_context, waiting, grown_for, add_event_to, add_event, dispatch,
}
use net_ninja.IoManager.Table.{total, IsValid, new_io_manager-IsValid}
use net_ninja.IoManager.Calls.{is_registered, waiters, waiting_task, add_event-IsValid}
use net_ninja.IoManager.Cancel.{IsHanded}
use net_ninja.IoManager.Ready.{IsExpected, is_taken, dispatch-IsHanded, dispatch-aborted}
use net_ninja.IoManager.Idle.{
  max_timeout, poll_timeout, poll_timeout-IsBounded, io_stopping, io_stopping-IsReachable,
}
use net_ninja.Scheduler.{State, Scheduler, stopping}
use net_ninja.Timer.{new_manager, get_timer_next}
use net_ninja.IoManager.Steps.{Step, ok_eq, IsReachable, reachable-IsConserved}

abbrev always : Ctl → Bool
always ctl = true

-- What a successful `addEvent` for reading of descriptor 40 leaves, which grows the vector to 60.
abbrev one_reader : Outcome (Bool × IoManager)
one_reader = add_event always new_io_manager 40 Event.read none (some 1) 7 true

abbrev state_of : Outcome (Bool × IoManager) → IoManager
state_of (ok r) = r.1
state_of other = new_io_manager

abbrev reader : IoManager
reader = state_of one_reader

reader_run : one_reader ≡ ok (true, reader)
unfolding new_io_manager context_resize fresh_contexts grown_for add_event add_event_to put_context
    get_context waiting
reader_run = refl

size_run : length reader.contexts ≡ 60
unfolding new_io_manager context_resize fresh_contexts grown_for add_event add_event_to put_context
    get_context waiting
size_run = refl

free_run : is_registered new_io_manager 40 Event.read ≡ false
unfolding new_io_manager context_resize fresh_contexts
free_run = refl

reading_run : is_registered reader 40 Event.read ≡ true
unfolding new_io_manager context_resize fresh_contexts grown_for add_event add_event_to put_context
    get_context waiting
reading_run = refl

writing_run : is_registered reader 40 Event.write ≡ false
unfolding new_io_manager context_resize fresh_contexts grown_for add_event add_event_to put_context
    get_context waiting
writing_run = refl

waiters_run : waiters reader 40 Event.read ≡ (1, Task.resume 7) ∷ []
unfolding new_io_manager context_resize fresh_contexts grown_for add_event add_event_to put_context
    get_context waiting
waiters_run = refl

reader-IsValid : IsValid reader
reader-IsValid =
    let (a, m', run, v, reg, tot, ts, ws) =
      add_event-IsValid always new_io_manager 40 Event.read none 1 7 true new_io_manager-IsValid
        free_run refl in
    subst (λ (t : Bool × IoManager). IsValid t.1)
      (ok_eq (a, m') (true, reader) (sym run ∙ reader_run)) v

add_event-IsValid_example :
    (added : Bool) × (m' : IoManager) × (add_event always new_io_manager 40 Event.read none
        (some 1)
        7
        true
      ≡ ok (added, m'))
    × IsValid m'
    × (is_registered m' 40 Event.read ≡ added)
    × (total m'.contexts ≡ total new_io_manager.contexts + (if added then 1 else 0))
    × (m'.tasks ≡ new_io_manager.tasks)
    × (waiters m' 40 Event.read ≡ (if added then (1, waiting_task none 7) ∷ [] else []))
add_event-IsValid_example =
    add_event-IsValid always new_io_manager 40 Event.read none 1 7 true new_io_manager-IsValid
      free_run refl

below_run : 40 < length reader.contexts
below_run = omega (arith, size_run)

reader-IsExpected : IsExpected reader 40 (record { reading = true; writing = false })
reader-IsExpected = (ap not reading_run, refl)

dispatch-IsHanded_example :
    (done : Bool) × (m' : IoManager) × (done
      ≡ is_taken always reader 40 (record { reading = true; writing = false }) false)
    × (dispatch always reader 40 (record { reading = true; writing = false }) false ≡ ok m')
    × IsHanded reader done (waiters reader 40 Event.read ++ []) m'
dispatch-IsHanded_example =
    dispatch-IsHanded always reader 40 (record { reading = true; writing = false }) false
      reader-IsValid below_run reader-IsExpected

dispatch-aborted_example :
    dispatch always reader 40 (record { reading = true; writing = true }) false ≡ aborted
dispatch-aborted_example =
    dispatch-aborted always reader 40 reader-IsValid reading_run writing_run (λ ctl. refl)

reader-IsReachable : IsReachable reader 1 0
reader-IsReachable =
    IsReachable.step new_io_manager reader 0 0 1 0 IsReachable.start
      (Step.added always 40 Event.read none 1 7 true true reader free_run reader_run)

reachable-IsConserved_example :
    (reader.pending ≡ total reader.contexts % 2 ^ 64)
    × (total reader.contexts + length reader.tasks + 0 ≡ 1)
reachable-IsConserved_example = reachable-IsConserved reader 1 0 reader-IsReachable

poll_timeout-IsBounded_example :
    (leb (poll_timeout 7000) max_timeout
      ≡ not (not (7000 == 2 ^ 64 - 1) && leb (2 ^ 31) (7000 % 2 ^ 32)))
    × (leb (2 ^ 31) (poll_timeout 7000)
        ≡ (not (7000 == 2 ^ 64 - 1) && leb (2 ^ 31) (7000 % 2 ^ 32)))
    × (((not (7000 == 2 ^ 64 - 1) && leb (2 ^ 31) (7000 % 2 ^ 32)) || leb (poll_timeout 7000) 7000)
        ≡ true)
poll_timeout-IsBounded_example = poll_timeout-IsBounded 7000 (omega arith)

-- A timeout of 25 days is given to epoll_wait as an int below zero.
forever_run : poll_timeout 2160000000 ≡ 2160000000
unfolding poll_timeout
forever_run = refl

abbrev stopped : Scheduler
stopped = record {
  fibers = [];
  active = 0;
  idle = 1;
  stopped = true;
  states = λ f. State.hold;
  next = 1;
}

stopping_run : (io_stopping new_io_manager stopped (new_manager 0) 5).0 ≡ true
unfolding io_stopping get_timer_next new_io_manager context_resize fresh_contexts stopping
stopping_run = refl

empty_run : total new_io_manager.contexts < 2 ^ 64
unfolding new_io_manager context_resize fresh_contexts
empty_run = omega arith

io_stopping-IsReachable_example :
    (total new_io_manager.contexts ≡ 0)
    × ((io_stopping new_io_manager stopped (new_manager 0) 5).1 ≡ 2 ^ 64 - 1)
    × (stopped.fibers ≡ [])
    × (stopped.active ≡ 0)
    × (stopped.stopped ≡ true)
io_stopping-IsReachable_example =
    io_stopping-IsReachable new_io_manager stopped (new_manager 0) 5 0 0 IsReachable.start empty_run
      stopping_run
