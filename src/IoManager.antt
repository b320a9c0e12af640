-- ===== src/IoManager.antt =====
-- src/iomanager.h and src/iomanager.cpp: the events that fibers and callbacks wait for, by file
-- descriptor. A scheduler, a fiber and a callback are numbers, and a null pointer is `none`. What is
-- handed to a scheduler is added to `tasks`. `epoll_ctl` of the system is a parameter, which says
-- whether a call succeeds; `calls` lists the successful ones. A method holds the lock of the
-- descriptor from the test of its events on, and is one step. Descriptors are not negative.
pub mod Context
pub mod Table
pub mod Calls
pub mod Running
pub mod Deleted
pub mod Triggered
pub mod Cancel
pub mod Ready
pub mod Steps
pub mod Idle
mod Tests
use net_ninja.Common.{
  ℕ, zero, suc, ◌+◌, ◌-◌, ◌*◌, ◌/◌, ◌%◌, ◌^◌, Bool, true, false, not, ◌&&◌, ◌||◌, List, [], ◌∷◌,
  ◌++◌, Option, none, some, ltb, if◌then◌else◌, length, get_elem?, set, take, Outcome, ok, fault,
  aborted, ◌>>=◌,
}

pub data Event : Type 0 where
  read : Event
  write : Event

-- A set of the two bits READ and WRITE.
pub record Events : Type 0 where
  pub reading : Bool
  pub writing : Bool

pub record EventContext : Type 0 where
  pub scheduler : Option ℕ
  pub fiber : Option ℕ
  pub cb : Option ℕ

pub record FdContext : Type 0 where
  pub read_ctx : EventContext
  pub write_ctx : EventContext
  pub fd : ℕ
  pub events : Events

pub data Task : Type 0 where
  resume : ℕ → Task
  call : ℕ → Task

pub data Op : Type 0 where
  ctl_add : Op
  ctl_mod : Op
  ctl_del : Op

pub record Ctl : Type 0 where
  pub op : Op
  pub fd : ℕ
  pub events : Events

pub record IoManager : Type 0 where
  pub pending : ℕ
  pub contexts : List FdContext
  pub tasks : List (ℕ × Task)
  pub calls : List Ctl

abbrev pub no_events : Events
no_events = record { reading = false; writing = false }

abbrev pub has : Events → Event → Bool
has s Event.read = s.reading
has s Event.write = s.writing

abbrev pub add_bit : Events → Event → Events
add_bit s Event.read = record s { reading = true }
add_bit s Event.write = record s { writing = true }

abbrev pub drop_bit : Events → Event → Events
drop_bit s Event.read = record s { reading = false }
drop_bit s Event.write = record s { writing = false }

abbrev pub some_bit : Events → Bool
some_bit s = s.reading || s.writing

abbrev pub both_bits : Events → Events → Events
both_bits s t = record { reading = s.reading && t.reading; writing = s.writing && t.writing }

abbrev pub minus_bits : Events → Events → Events
minus_bits s t = record {
  reading = s.reading && not t.reading;
  writing = s.writing && not t.writing;
}

abbrev pub empty_context : EventContext
empty_context = record { scheduler = none; fiber = none; cb = none }

unfoldable pub get_context : FdContext → Event → EventContext
get_context c Event.read = c.read_ctx
get_context c Event.write = c.write_ctx

-- What is written through the reference that `getContext` gives.
unfoldable pub put_context : FdContext → Event → EventContext → FdContext
put_context c Event.read x = record c { read_ctx = x }
put_context c Event.write x = record c { write_ctx = x }

-- `schedule(&ctx.cb)` or `schedule(&ctx.fiber)`: a null fiber is not queued.
unfoldable pub context_task : EventContext → ℕ → List (ℕ × Task)
context_task x s = elim x.cb [
  | some f ↦ (s, Task.call f) ∷ []
  | none ↦ elim x.fiber [ some f ↦ (s, Task.resume f) ∷ [] | none ↦ [] ]
]

-- The member that was swapped into the queue is null behind it, and the scheduler too.
unfoldable pub handed_over : EventContext → EventContext
handed_over x = elim x.cb [
  | some f ↦ record x { scheduler = none; cb = none }
  | none ↦ record x { scheduler = none; fiber = none }
]

unfoldable pub trigger_event : FdContext → Event → Outcome (FdContext × List (ℕ × Task))
trigger_event c e =
    let x = get_context c e in
    let c' = record (put_context c e (handed_over x)) { events = drop_bit c.events e } in
    let triggered : Outcome (FdContext × List (ℕ × Task)) = elim x.scheduler [
      | none ↦ fault
      | some s ↦ ok (c', context_task x s)
    ] in
    if has c.events e then triggered else aborted

-- `new FdContext` with its number, for the places that are null.
unfoldable pub fresh_contexts : ℕ → ℕ → List FdContext
fresh_contexts zero fd = []
fresh_contexts (suc n) fd =
    record { read_ctx = empty_context; write_ctx = empty_context; fd = fd; events = no_events }
    ∷ fresh_contexts n (suc fd)

-- `contextResize`: what is behind the new size is cut off.
unfoldable pub context_resize : IoManager → ℕ → IoManager
context_resize m size = record m {
  contexts = take size m.contexts ++ fresh_contexts (size - length m.contexts) (length m.contexts);
}

-- `IOManager(...)`, without the threads and the pipe.
unfoldable pub new_io_manager : IoManager
new_io_manager = context_resize (record { pending = 0; contexts = []; tasks = []; calls = [] }) 32

-- `--m_pendingEventCount`, a size_t.
abbrev pub one_less : ℕ → ℕ
one_less n = (n + 2 ^ 64 - 1) % 2 ^ 64

-- `Scheduler::GetThis()`, with the callback or else the current fiber.
unfoldable pub waiting : Option ℕ → Option ℕ → ℕ → EventContext
waiting scheduler (some f) fiber = record { scheduler = scheduler; fiber = none; cb = some f }
waiting scheduler none fiber = record { scheduler = scheduler; fiber = some fiber; cb = none }

abbrev pub is_null {ℓ} : {A : Type ℓ} → Option A → Bool
is_null none = true
is_null (some a) = false

-- The assertion on the context that `addEvent` fills.
abbrev pub is_empty_context : EventContext → Bool
is_empty_context x = is_null x.scheduler && is_null x.fiber && is_null x.cb

unfoldable pub grown_for : IoManager → ℕ → IoManager
grown_for m fd = if ltb fd (length m.contexts) then m else context_resize m (fd * 3 / 2)

-- `triggerEvent` of the context of `fd`, and the count.
unfoldable pub trigger_in : IoManager → FdContext → ℕ → Event → Outcome (FdContext × IoManager)
trigger_in m c fd e = do
  (c', ts) ← trigger_event c e
  ok (
    c',
    record m {
      pending = one_less m.pending;
      contexts = set m.contexts fd c';
      tasks = m.tasks ++ ts;
    },
  )

-- `if(events & e) { triggerEvent(e); --m_pendingEventCount; }`
unfoldable pub trigger_if :
    Bool → IoManager → FdContext → ℕ → Event → Outcome (FdContext × IoManager)
trigger_if true m c fd e = trigger_in m c fd e
trigger_if false m c fd e = ok (c, m)

-- What epoll_wait reports of a descriptor: EPOLLIN and EPOLLOUT, and EPOLLERR or EPOLLHUP.
unfoldable pub real_events : Events → Bool → Events → Events
real_events reported broken registered =
    if broken
    then record {
      reading = reported.reading || registered.reading;
      writing = reported.writing || registered.writing;
    }
    else reported

module _ (epoll_ctl : Ctl → Bool) where
  -- On the descriptor's context: the int that is returned (whether it is 0), and the state.
  -- `ready` is the last assertion.
  unfoldable pub add_event_to :
      IoManager → FdContext → ℕ → Event → EventContext → Bool → Outcome (Bool × IoManager)
  add_event_to m c fd e x ready =
      let s = add_bit c.events e in
      let ctl : Ctl = record {
        op = if some_bit c.events then Op.ctl_mod else Op.ctl_add;
        fd = fd;
        events = s;
      } in
      let c' = put_context (record c { events = s }) e x in
      let added : Outcome (Bool × IoManager) =
        if is_empty_context (get_context c e) && ready
        then ok (
          true,
          record m {
            pending = (m.pending + 1) % 2 ^ 64;
            contexts = set m.contexts fd c';
            calls = ctl ∷ m.calls;
          },
        )
        else aborted in
      if has c.events e then aborted else if epoll_ctl ctl then added else ok (false, m)

  -- `running` says whether the state of the current fiber is EXEC, which is asserted where it waits.
  unfoldable pub add_event :
      IoManager → ℕ → Event → Option ℕ → Option ℕ → ℕ → Bool → Outcome (Bool × IoManager)
  add_event m fd e cb scheduler fiber running =
      let m' = grown_for m fd in
      elim (get_elem? m'.contexts fd) [
        | none ↦ fault
        | some c ↦ add_event_to m' c fd e (waiting scheduler cb fiber) (not (is_null cb) || running)
      ]

  unfoldable pub del_event_from : IoManager → FdContext → ℕ → Event → Bool × IoManager
  del_event_from m c fd e =
      let s = drop_bit c.events e in
      let ctl : Ctl = record {
        op = if some_bit s then Op.ctl_mod else Op.ctl_del;
        fd = fd;
        events = s;
      } in
      let c' = put_context (record c { events = s }) e empty_context in
      if has c.events e && epoll_ctl ctl
      then (
        true,
        record m {
          pending = one_less m.pending;
          contexts = set m.contexts fd c';
          calls = ctl ∷ m.calls;
        },
      )
      else (false, m)

  unfoldable pub del_event : IoManager → ℕ → Event → Bool × IoManager
  del_event m fd e = elim (get_elem? m.contexts fd) [
    | none ↦ (false, m)
    | some c ↦ del_event_from m c fd e
  ]

  unfoldable pub cancel_event_from : IoManager → FdContext → ℕ → Event → Outcome (Bool × IoManager)
  cancel_event_from m c fd e =
      let s = drop_bit c.events e in
      let ctl : Ctl = record {
        op = if some_bit s then Op.ctl_mod else Op.ctl_del;
        fd = fd;
        events = s;
      } in
      if has c.events e && epoll_ctl ctl
      then (do (c', m') ← trigger_in (record m { calls = ctl ∷ m.calls }) c fd e; ok (true, m'))
      else ok (false, m)

  unfoldable pub cancel_event : IoManager → ℕ → Event → Outcome (Bool × IoManager)
  cancel_event m fd e = elim (get_elem? m.contexts fd) [
    | none ↦ ok (false, m)
    | some c ↦ cancel_event_from m c fd e
  ]

  unfoldable pub cancel_all_from : IoManager → FdContext → ℕ → Outcome (Bool × IoManager)
  cancel_all_from m c fd =
      let ctl : Ctl = record { op = Op.ctl_del; fd = fd; events = no_events } in
      if some_bit c.events && epoll_ctl ctl
      then (do
        (c', m') ← trigger_if c.events.reading (record m { calls = ctl ∷ m.calls }) c fd Event.read
        (c'', m'') ← trigger_if c'.events.writing m' c' fd Event.write
        if some_bit c''.events then aborted else ok (true, m''))
      else ok (false, m)

  unfoldable pub cancel_all : IoManager → ℕ → Outcome (Bool × IoManager)
  cancel_all m fd = elim (get_elem? m.contexts fd) [
    | none ↦ ok (false, m)
    | some c ↦ cancel_all_from m c fd
  ]

  unfoldable pub dispatch_to : IoManager → FdContext → ℕ → Events → Bool → Outcome IoManager
  dispatch_to m c fd reported broken =
      let real = real_events reported broken c.events in
      let left = minus_bits c.events real in
      let ctl : Ctl = record {
        op = if some_bit left then Op.ctl_mod else Op.ctl_del;
        fd = fd;
        events = left;
      } in
      if some_bit (both_bits c.events real) && epoll_ctl ctl
      then (do
        (c', m') ← trigger_if real.reading (record m { calls = ctl ∷ m.calls }) c fd Event.read
        (c'', m'') ← trigger_if real.writing m' c' fd Event.write
        ok m'')
      else ok m

  -- One turn of the loop over the events in `idle`; `data.ptr` is the context of `fd`.
  unfoldable pub dispatch : IoManager → ℕ → Events → Bool → Outcome IoManager
  dispatch m fd reported broken = elim (get_elem? m.contexts fd) [
    | none ↦ fault
    | some c ↦ dispatch_to m c fd reported broken
  ]
