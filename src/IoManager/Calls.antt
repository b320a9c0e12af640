-- ===== src/IoManager/Calls.antt =====
-- addEvent of src/iomanager.cpp on a valid object, and what stands in a context.
use net_ninja.Common.{
  length-set, get-below, get-set, ℕ, ◌+◌, ◌%◌, ◌^◌, ◌≡◌, refl, sym, ap, ◌∙◌, inl, inr, Bool, true,
  false, not, ◌&&◌, ◌||◌, List, [], ◌∷◌, Option, none, some, arith, if◌then◌else◌, get_elem?, set,
  Bool-cases, if_true, if_false, some_is, ok,
}
use net_ninja.IoManager.{
  Event, EventContext, FdContext, Task, Op, Ctl, IoManager, no_events, has, add_bit, drop_bit,
  is_null, some_bit, get_context, put_context, one_less, waiting, grown_for, add_event_to,
  add_event,
}
use net_ninja.IoManager.Context.{
  IsContext, cleared, filled, the_task, the_scheduler, is_full, cleared-IsContext, filled-IsContext,
  weight-cleared, weight-filled, side_empty, waiting-full,
}
use net_ninja.IoManager.Table.{
  IsTable, total, get-IsContext, set-IsTable, total-set, get-grown_for, IsValid, grown_for-IsGrown,
}

abbrev pub registered_in : List FdContext → ℕ → Event → Bool
registered_in l fd e = elim (get_elem? l fd) [ none ↦ false | some c ↦ has c.events e ]

abbrev pub is_registered : IoManager → ℕ → Event → Bool
is_registered m = registered_in m.contexts

abbrev pub add_ctl : FdContext → ℕ → Event → Ctl
add_ctl c fd e = record {
  op = if some_bit c.events then Op.ctl_mod else Op.ctl_add;
  fd = fd;
  events = add_bit c.events e;
}

abbrev pub drop_ctl : FdContext → ℕ → Event → Ctl
drop_ctl c fd e = record {
  op = if some_bit (drop_bit c.events e) then Op.ctl_mod else Op.ctl_del;
  fd = fd;
  events = drop_bit c.events e;
}

pub registered_of :
    (l : List FdContext) (fd : ℕ) (e : Event) (c : FdContext)
    → get_elem? l fd ≡ some c
    → registered_in l fd e ≡ has c.events e
registered_of l fd e c g = some_is g _ _

-- What a context has for its scheduler.
abbrev pub handed : FdContext → Event → List (ℕ × Task)
handed c e = (the_scheduler (get_context c e), the_task (get_context c e)) ∷ []

-- What is waiting in a descriptor for an event.
abbrev pub waiters : IoManager → ℕ → Event → List (ℕ × Task)
waiters m fd e = elim (get_elem? m.contexts fd) [
  | none ↦ []
  | some c ↦ if has c.events e then handed c e else []
]

pub waiters_of :
    (m : IoManager) (fd : ℕ) (e : Event) (c : FdContext)
    → get_elem? m.contexts fd ≡ some c
    → waiters m fd e ≡ (if has c.events e then handed c e else [])
waiters_of m fd e c g = some_is g _ _

cleared-fd : (c : FdContext) (e : Event) → (cleared c e).fd ≡ c.fd
unfolding put_context
cleared-fd c Event.read = refl
cleared-fd c Event.write = refl

filled-fd : (c : FdContext) (e : Event) (x : EventContext) → (filled c e x).fd ≡ c.fd
unfolding put_context
filled-fd c Event.read x = refl
filled-fd c Event.write x = refl

module _ (m : IoManager) (fd : ℕ) (c : FdContext) (v : IsValid m)
    (g : get_elem? m.contexts fd ≡ some c) where
  pub get-valid : IsContext c
  get-valid = (get-IsContext 0 fd m.contexts c v.table g).1

  put-IsTable : (d : FdContext) → d.fd ≡ c.fd → IsContext d → IsTable 0 (set m.contexts fd d)
  put-IsTable d n w =
      set-IsTable 0 fd m.contexts d v.table (n ∙ (get-IsContext 0 fd m.contexts c v.table g).0) w

  -- The context of one event less, and the count too.
  pub cleared-IsValid :
      (e : Event) (ts : List (ℕ × Task)) (cs : List Ctl)
      → has c.events e ≡ true
      → IsValid (record m {
        pending = one_less m.pending;
        contexts = set m.contexts fd (cleared c e);
        tasks = ts;
        calls = cs;
      })
  cleared-IsValid e ts cs h = record {
    table = put-IsTable (cleared c e) (cleared-fd c e) (cleared-IsContext c e get-valid);
    count = omega (arith, v.count, total-set fd m.contexts c (cleared c e) g, weight-cleared c e h);
    large = omega (arith, v.large, length-set fd m.contexts (cleared c e));
  }

  pub total-cleared :
      (e : Event)
      → has c.events e ≡ true
      → total (set m.contexts fd (cleared c e)) + 1 ≡ total m.contexts
  total-cleared e h = omega (arith, total-set fd m.contexts c (cleared c e) g, weight-cleared c e h)

  pub filled-IsValid :
      (e : Event) (x : EventContext) (cs : List Ctl)
      → has c.events e ≡ false
      → is_full x ≡ true
      → IsValid (record m {
        pending = (m.pending + 1) % 2 ^ 64;
        contexts = set m.contexts fd (filled c e x);
        calls = cs;
      })
  filled-IsValid e x cs h f = record {
    table = put-IsTable (filled c e x) (filled-fd c e x) (filled-IsContext c e x get-valid f);
    count =
        omega (arith, v.count, total-set fd m.contexts c (filled c e x) g, weight-filled c e x h);
    large = omega (arith, v.large, length-set fd m.contexts (filled c e x));
  }

  pub total-filled :
      (e : Event) (x : EventContext)
      → has c.events e ≡ false
      → total (set m.contexts fd (filled c e x)) ≡ total m.contexts + 1
  total-filled e x h =
      omega (arith, total-set fd m.contexts c (filled c e x) g, weight-filled c e x h)

registered-grown :
    (m : IoManager) (fd : ℕ) (e : Event) (c : FdContext)
    → IsValid m
    → get_elem? (grown_for m fd).contexts fd ≡ some c
    → is_registered m fd e ≡ false
    → has c.events e ≡ false
registered-grown m fd e c v g r = elim (get-grown_for m fd c v g) [
  | inl h ↦ sym (registered_of m.contexts fd e c h) ∙ r
  | inr h ↦ ap (λ s. has s e) h ∙ none_has e
]
  where
    none_has : (e : Event) → has no_events e ≡ false
    none_has Event.read = refl
    none_has Event.write = refl

filled-has : (c : FdContext) (e : Event) (x : EventContext) → has (filled c e x).events e ≡ true
unfolding put_context
filled-has c Event.read x = refl
filled-has c Event.write x = refl

filled-side : (c : FdContext) (e : Event) (x : EventContext) → get_context (filled c e x) e ≡ x
unfolding get_context put_context
filled-side c Event.read x = refl
filled-side c Event.write x = refl

pub cleared-has : (c : FdContext) (e : Event) → has (cleared c e).events e ≡ false
unfolding put_context
cleared-has c Event.read = refl
cleared-has c Event.write = refl

waiters-filled :
    (m : IoManager) (fd : ℕ) (c : FdContext) (e : Event) (x : EventContext)
    → get_elem? m.contexts fd ≡ some c
    → (p : ℕ) (ts : List (ℕ × Task)) (cs : List Ctl)
    → waiters
        (record {
          pending = p;
          contexts = set m.contexts fd (filled c e x);
          tasks = ts;
          calls = cs;
        })
        fd
        e
      ≡ (the_scheduler x, the_task x) ∷ []
waiters-filled m fd c e x g p ts cs =
    some_is (get-set fd m.contexts c (filled c e x) g) _ _
    ∙ if_true (filled-has c e x) _ _
    ∙ ap (λ y. (the_scheduler y, the_task y) ∷ []) (filled-side c e x)

-- The task that `addEvent` registers.
abbrev pub waiting_task : Option ℕ → ℕ → Task
waiting_task (some f) fiber = Task.call f
waiting_task none fiber = Task.resume fiber

waiting-task :
    (s f : ℕ) (g : Option ℕ)
    → ◌≡◌ {A = ℕ × Task}
        (the_scheduler (waiting (some s) g f), the_task (waiting (some s) g f))
        (s, waiting_task g f)
unfolding waiting
waiting-task s f none = refl
waiting-task s f (some g) = refl

and_true : {b : Bool} → b ≡ true → (b && true) ≡ true
and_true e = rw e refl

add_event_to-IsValid :
    (epoll_ctl : Ctl → Bool) (m : IoManager) (c : FdContext) (fd : ℕ) (e : Event) (x : EventContext)
    → IsValid m
    → get_elem? m.contexts fd ≡ some c
    → has c.events e ≡ false
    → is_full x ≡ true
    → (added : Bool) × (m' : IoManager) × (add_event_to epoll_ctl m c fd e x true ≡ ok (added, m'))
      × IsValid m'
      × (is_registered m' fd e ≡ added)
      × (total m'.contexts ≡ total m.contexts + (if added then 1 else 0))
      × (m'.tasks ≡ m.tasks)
      × (waiters m' fd e ≡ (if added then (the_scheduler x, the_task x) ∷ [] else []))
unfolding add_event_to
add_event_to-IsValid epoll_ctl m c fd e x v g free full =
    elim (Bool-cases (epoll_ctl (add_ctl c fd e))) [
      | inl a ↦ (
        true,
        record m {
          pending = (m.pending + 1) % 2 ^ 64;
          contexts = set m.contexts fd (filled c e x);
          calls = add_ctl c fd e ∷ m.calls;
        },
        if_false free _ _
            ∙ if_true a _ _
            ∙ if_true (and_true (side_empty c e (get-valid m fd c v g) free)) _ _,
        filled-IsValid m fd c v g e x _ free full,
        registered_of (set m.contexts fd (filled c e x)) fd e (filled c e x)
              (get-set fd m.contexts c (filled c e x) g)
            ∙ filled-has c e x,
        total-filled m fd c v g e x free,
        refl,
        waiters-filled m fd c e x g ((m.pending + 1) % 2 ^ 64) m.tasks (add_ctl c fd e ∷ m.calls),
      )
      | inr a ↦ (
        false,
        m,
        if_false free _ _ ∙ if_false a _ _,
        v,
        registered_of m.contexts fd e c g ∙ free,
        omega arith,
        refl,
        waiters_of m fd e c g ∙ if_false free _ _,
      )
    ]

-- On valid contexts, `addEvent` of an event that is not registered, from a thread of a scheduler, with
-- a callback or from a fiber in the state EXEC, does not abort and keeps them valid. If it answers success, the event is registered, it is one more, and
-- the callback, or the current fiber if there is none, waits for it; else none of this. Nothing is
-- handed out.
pub add_event-IsValid :
    (epoll_ctl : Ctl → Bool) (m : IoManager) (fd : ℕ) (e : Event) (cb : Option ℕ)
    (scheduler fiber : ℕ) (running : Bool)
    → IsValid m
    → is_registered m fd e ≡ false
    → (not (is_null cb) || running) ≡ true
    → (added : Bool) × (m' : IoManager) × (add_event epoll_ctl m fd e cb
          (some scheduler)
          fiber
          running
        ≡ ok (added, m'))
      × IsValid m'
      × (is_registered m' fd e ≡ added)
      × (total m'.contexts ≡ total m.contexts + (if added then 1 else 0))
      × (m'.tasks ≡ m.tasks)
      × (waiters m' fd e ≡ (if added then (scheduler, waiting_task cb fiber) ∷ [] else []))
unfolding add_event
add_event-IsValid epoll_ctl m fd e cb scheduler fiber running v r ready =
    let (size, grown, below) = grown_for-IsGrown m fd v in
    let (c, g) = get-below fd (grown_for m fd).contexts (omega (arith, below, grown.length_eq)) in
    let free = registered-grown m fd e c v g r in
    let x = waiting (some scheduler) cb fiber in
    let (added, m', run, w, reg, tot, ts, ws) =
      add_event_to-IsValid epoll_ctl (grown_for m fd) c fd e x grown.valid g free
        (waiting-full scheduler fiber cb) in
    (
      added,
      m',
      some_is {o = get_elem? (grown_for m fd).contexts fd} g _ _
          ∙ ap (add_event_to epoll_ctl (grown_for m fd) c fd e x) ready
          ∙ run,
      w,
      reg,
      omega (arith, tot, grown.total_eq),
      ts ∙ grown.tasks_eq,
      ws ∙ ap (λ t. if added then t ∷ [] else []) (waiting-task scheduler fiber cb),
    )
