-- ===== src/IoManager/Context.antt =====
-- One descriptor's context in src/iomanager.cpp: a bit is set just when its side holds a task.
use net_ninja.Common.{
  if_true, some_is, ℕ, ◌+◌, ◌≡◌, refl, ap, ◌∙◌, Bool, true, false, not, ◌&&◌, ◌||◌, [], ◌∷◌, Option,
  none, some, arith, if◌then◌else◌, ok,
}
use net_ninja.IoManager.{
  Event, Events, EventContext, FdContext, Task, has, add_bit, drop_bit, empty_context, get_context,
  put_context, context_task, handed_over, trigger_event, is_null, is_empty_context, waiting,
}

-- A scheduler, and a fiber or a callback.
abbrev pub is_full : EventContext → Bool
is_full x =
    not (is_null x.scheduler)
    && ((not (is_null x.fiber) && is_null x.cb) || (is_null x.fiber && not (is_null x.cb)))

abbrev pub fits : Bool → EventContext → Bool
fits b x = if b then is_full x else is_empty_context x

abbrev pub IsContext : FdContext → Type 0
IsContext c = (fits c.events.reading c.read_ctx ≡ true) × (fits c.events.writing c.write_ctx ≡ true)

abbrev pub weight : FdContext → ℕ
weight c = (if c.events.reading then 1 else 0) + (if c.events.writing then 1 else 0)

-- The context without the event, and with it.
abbrev pub cleared : FdContext → Event → FdContext
cleared c e = put_context (record c { events = drop_bit c.events e }) e empty_context

abbrev pub filled : FdContext → Event → EventContext → FdContext
filled c e x = put_context (record c { events = add_bit c.events e }) e x

abbrev pub the_task : EventContext → Task
the_task x = elim x.cb [
  | some f ↦ Task.call f
  | none ↦ elim x.fiber [ some f ↦ Task.resume f | none ↦ Task.resume 0 ]
]

abbrev pub the_scheduler : EventContext → ℕ
the_scheduler x = elim x.scheduler [ some s ↦ s | none ↦ 0 ]

abbrev context : Option ℕ → Option ℕ → Option ℕ → EventContext
context s f g = record { scheduler = s; fiber = f; cb = g }

abbrev IsHandedOver : EventContext → Type 0
IsHandedOver x =
    (x.scheduler ≡ some (the_scheduler x))
    × (context_task x (the_scheduler x) ≡ (the_scheduler x, the_task x) ∷ [])
    × (handed_over x ≡ empty_context)

full-IsHandedOver :
    (s f g : Option ℕ) → is_full (context s f g) ≡ true → IsHandedOver (context s f g)
unfolding context_task handed_over
full-IsHandedOver none f g h = cc
full-IsHandedOver (some s) none none h = cc
full-IsHandedOver (some s) (some f) (some g) h = cc
full-IsHandedOver (some s) (some f) none h = (refl, refl, refl)
full-IsHandedOver (some s) none (some g) h = (refl, refl, refl)

side_full :
    (c : FdContext) (e : Event)
    → IsContext c
    → has c.events e ≡ true
    → is_full (get_context c e) ≡ true
unfolding get_context
side_full c Event.read v h = rw h at v.0
side_full c Event.write v h = rw h at v.1

pub side_empty :
    (c : FdContext) (e : Event)
    → IsContext c
    → has c.events e ≡ false
    → is_empty_context (get_context c e) ≡ true
unfolding get_context
side_empty c Event.read v h = rw h at v.0
side_empty c Event.write v h = rw h at v.1

put-events :
    (c : FdContext) (e : Event) (x : EventContext) (s : Events)
    → ◌≡◌ {A = FdContext}
        (record (put_context c e x) { events = s })
        (put_context (record c { events = s }) e x)
unfolding put_context
put-events c Event.read x s = refl
put-events c Event.write x s = refl

trigger-step :
    (c : FdContext) (e : Event) (x : EventContext)
    → get_context c e ≡ x
    → has c.events e ≡ true
    → IsHandedOver x
    → trigger_event c e ≡ ok (cleared c e, (the_scheduler x, the_task x) ∷ [])
unfolding trigger_event
trigger-step c e x g h p =
    if_true h _ _
    ∙ some_is (ap (λ y. y.scheduler) g ∙ p.0) _ _
    ∙ ap
        (λ y. ok (
          record (put_context c e (handed_over y)) { events = drop_bit c.events e },
          context_task y (the_scheduler x),
        ))
        g
    ∙ ap (λ t. ok (record (put_context c e (handed_over x)) { events = drop_bit c.events e }, t))
        p.1
    ∙ ap
        (λ y. ok (
          record (put_context c e y) { events = drop_bit c.events e },
          (the_scheduler x, the_task x) ∷ [],
        ))
        p.2
    ∙ ap (λ y. ok (y, (the_scheduler x, the_task x) ∷ []))
        (put-events c e empty_context (drop_bit c.events e))

-- A registered event is triggered: its task goes to its scheduler, and the side is empty.
pub trigger_event-cleared :
    (c : FdContext) (e : Event)
    → IsContext c
    → has c.events e ≡ true
    → trigger_event c e
      ≡ ok (cleared c e, (the_scheduler (get_context c e), the_task (get_context c e)) ∷ [])
trigger_event-cleared c e v h = trigger-step c e (get_context c e) refl h (
    full-IsHandedOver (get_context c e).scheduler (get_context c e).fiber (get_context c e).cb
      (side_full c e v h))

pub cleared-IsContext : (c : FdContext) (e : Event) → IsContext c → IsContext (cleared c e)
unfolding put_context
cleared-IsContext c Event.read v = (refl, v.1)
cleared-IsContext c Event.write v = (v.0, refl)

pub filled-IsContext :
    (c : FdContext) (e : Event) (x : EventContext)
    → IsContext c
    → is_full x ≡ true
    → IsContext (filled c e x)
unfolding put_context
filled-IsContext c Event.read x v f = (f, v.1)
filled-IsContext c Event.write x v f = (v.0, f)

pub weight-cleared :
    (c : FdContext) (e : Event) → has c.events e ≡ true → weight (cleared c e) + 1 ≡ weight c
unfolding put_context
weight-cleared c Event.read h = ground arith
weight-cleared c Event.write h = ground arith

pub weight-filled :
    (c : FdContext) (e : Event) (x : EventContext)
    → has c.events e ≡ false
    → weight (filled c e x) ≡ weight c + 1
unfolding put_context
weight-filled c Event.read x h = ground arith
weight-filled c Event.write x h = ground arith

pub waiting-full : (s f : ℕ) (g : Option ℕ) → is_full (waiting (some s) g f) ≡ true
unfolding waiting
waiting-full s f none = refl
waiting-full s f (some g) = refl
