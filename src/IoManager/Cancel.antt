-- ===== src/IoManager/Cancel.antt =====
-- cancelEvent and cancelAll of src/iomanager.cpp on a valid object.
use net_ninja.Common.{
  ℕ, ◌≡◌, refl, sym, ap, ◌∙◌, inl, inr, Bool, true, false, not, ◌&&◌, ◌||◌, List, [], ◌∷◌, ◌++◌,
  some, arith, if◌then◌else◌, get_elem?, Bool-cases, Option-cases, some_is, if_true, if_false,
  append-nil, Outcome, ok, ◌>>=◌,
}
use net_ninja.IoManager.{
  Event, FdContext, Task, Op, Ctl, IoManager, no_events, has, some_bit, cancel_event_from,
  cancel_event, trigger_if, cancel_all_from, cancel_all,
}
use net_ninja.IoManager.Table.{IsValid}
use net_ninja.IoManager.Calls.{waiters, waiters_of, handed, drop_ctl}
use net_ninja.IoManager.Triggered.{
  held, trigger_if-IsTriggered, trigger_if-true, calls-IsValid, trigger_both-AreTriggered,
}

-- A call that has handed out `ts` if `b`.
abbrev pub IsHanded : IoManager → Bool → List (ℕ × Task) → IoManager → Type 0
IsHanded m b ts m' =
    IsValid m' × (held m' ≡ held m) × (m'.tasks ≡ m.tasks ++ (if b then ts else []))

pub run_then {ℓ κ} :
    {A : Type ℓ} {B : Type κ} {o : Outcome A} {a : A}
    → o ≡ ok a
    → (f : A → Outcome B) → (o >>= f) ≡ f a
run_then e f = rw e refl

left_true : (a b : Bool) → (a && b) ≡ true → a ≡ true
left_true a b h = ground arith

not_both : (a : Bool) → (a && not a) ≡ false
not_both a = ground arith

cancel_event_from-IsHanded :
    (epoll_ctl : Ctl → Bool) (m : IoManager) (c : FdContext) (fd : ℕ) (e : Event)
    → IsValid m
    → get_elem? m.contexts fd ≡ some c
    → (cancelled : Bool) × (m' : IoManager) × (cancel_event_from epoll_ctl m c fd e
        ≡ ok (cancelled, m'))
      × IsHanded m cancelled (if has c.events e then handed c e else []) m'
unfolding cancel_event_from
cancel_event_from-IsHanded epoll_ctl m c fd e v g =
    elim (Bool-cases (has c.events e && epoll_ctl (drop_ctl c fd e))) [
      | inl h ↦
          let is : has c.events e ≡ true = left_true (has c.events e) _ h in
          let (d, m', run, t) =
            trigger_if-IsTriggered true (record m { calls = drop_ctl c fd e ∷ m.calls }) c fd e
              (calls-IsValid m _ v) g (ap (λ b. true && not b) is) in
          (
            true,
            m',
            if_true h _ _ ∙ run_then (trigger_if-true _ c fd e ∙ run) _,
            (t.valid, t.held_eq, t.tasks_eq ∙ ap (λ l. m.tasks ++ l) (sym (if_true is _ _))),
          )
      | inr h ↦ (false, m, if_false h _ _, (v, refl, sym (append-nil m.tasks)))
    ]

both_waiters : FdContext → List (ℕ × Task)
both_waiters c =
    (if c.events.reading then handed c Event.read else [])
    ++ (if c.events.writing then handed c Event.write else [])

all_ctl : ℕ → Ctl
all_ctl fd = record { op = Op.ctl_del; fd = fd; events = no_events }

cancel_all_from-IsHanded :
    (epoll_ctl : Ctl → Bool) (m : IoManager) (c : FdContext) (fd : ℕ)
    → IsValid m
    → get_elem? m.contexts fd ≡ some c
    → (cancelled : Bool) × (m' : IoManager) × (cancel_all_from epoll_ctl m c fd
        ≡ ok (cancelled, m'))
      × IsHanded m cancelled (both_waiters c) m'
unfolding cancel_all_from all_ctl both_waiters
cancel_all_from-IsHanded epoll_ctl m c fd v g =
    elim (Bool-cases (some_bit c.events && epoll_ctl (all_ctl fd))) [
      | inl h ↦
          let (d, m', d', m'', run, same, run', t) =
            trigger_both-AreTriggered c.events.reading c.events.writing
              (record m { calls = all_ctl fd ∷ m.calls }) c fd (calls-IsValid m _ v) g
              (not_both c.events.reading) (not_both c.events.writing) in
          let gone : some_bit d'.events ≡ false =
            ap some_bit t.events_eq ∙ nothing_left c.events.reading c.events.writing in
          (
            true,
            m'',
            if_true h _ _
                ∙ run_then run _
                ∙ run_then (ap (λ b. trigger_if b m' d fd Event.write) same ∙ run') _
                ∙ if_false gone _ _,
            (t.valid, t.held_eq, t.tasks_eq),
          )
      | inr h ↦ (false, m, if_false h _ _, (v, refl, sym (append-nil m.tasks)))
    ]
  where
    nothing_left : (r w : Bool) → (((r && not r) || (w && not w))) ≡ false
    nothing_left r w = ground arith

-- `cancelEvent` does not abort. If it answers true, what waited for the event is handed to its
-- scheduler, and the event is no longer held back; else nothing changes hands.
pub cancel_event-IsHanded :
    (epoll_ctl : Ctl → Bool) (m : IoManager) (fd : ℕ) (e : Event)
    → IsValid m
    → (cancelled : Bool) × (m' : IoManager) × (cancel_event epoll_ctl m fd e ≡ ok (cancelled, m'))
      × IsHanded m cancelled (waiters m fd e) m'
unfolding cancel_event
cancel_event-IsHanded epoll_ctl m fd e v = elim (Option-cases (get_elem? m.contexts fd)) [
  | inl g ↦ (false, m, rw (cancel_event, g) refl, (v, refl, sym (append-nil m.tasks)))
  | inr (c, g) ↦
      let (b, m', run, (w, n, ts)) = cancel_event_from-IsHanded epoll_ctl m c fd e v g in
      (
        b,
        m',
        some_is g _ _ ∙ run,
        (w, n, ts ∙ ap (λ l. m.tasks ++ (if b then l else [])) (sym (waiters_of m fd e c g))),
      )
]

-- The same for both events of a descriptor: `cancelAll`, whose last assertion holds.
pub cancel_all-IsHanded :
    (epoll_ctl : Ctl → Bool) (m : IoManager) (fd : ℕ)
    → IsValid m
    → (cancelled : Bool) × (m' : IoManager) × (cancel_all epoll_ctl m fd ≡ ok (cancelled, m'))
      × IsHanded m cancelled (waiters m fd Event.read ++ waiters m fd Event.write) m'
unfolding cancel_all both_waiters
cancel_all-IsHanded epoll_ctl m fd v = elim (Option-cases (get_elem? m.contexts fd)) [
  | inl g ↦ (false, m, rw (cancel_all, g) refl, (v, refl, sym (append-nil m.tasks)))
  | inr (c, g) ↦
      let (b, m', run, (w, n, ts)) = cancel_all_from-IsHanded epoll_ctl m c fd v g in
      (
        b,
        m',
        some_is g _ _ ∙ run,
        (
          w,
          n,
          ts
              ∙ ap
                  (λ l.
                    m.tasks
                    ++ (if b
                        then l ++ (if c.events.writing then handed c Event.write else [])
                        else []))
                  (sym (waiters_of m fd Event.read c g))
              ∙ ap (λ l. m.tasks ++ (if b then waiters m fd Event.read ++ l else []))
                  (sym (waiters_of m fd Event.write c g)),
        ),
      )
]
