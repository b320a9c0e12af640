-- ===== src/IoManager/Ready.antt =====
-- The loop over the events of epoll in idle of src/iomanager.cpp, on a valid object.
use net_ninja.Common.{
  get-below, ℕ, ◌<◌, ◌≡◌, refl, sym, ap, true-false, ◌∙◌, inl, inr, Bool, true, false, not, ◌&&◌,
  ◌||◌, [], ◌∷◌, ◌++◌, none, some, arith, if◌then◌else◌, length, get_elem?, Bool-cases,
  Option-cases, some_is, if_true, if_false, append-nil, Outcome, ok, aborted, ◌>>=◌,
}
use mathlib.Core.Path.{ap₂}
use net_ninja.IoManager.{
  Event, Events, FdContext, Op, Ctl, IoManager, has, some_bit, trigger_event, both_bits, minus_bits,
  trigger_in, trigger_if, real_events, dispatch_to, dispatch,
}
use net_ninja.IoManager.Table.{IsValid}
use net_ninja.IoManager.Calls.{
  waiters, waiters_of, handed, is_registered, registered_in, registered_of,
}
use net_ninja.IoManager.Triggered.{
  trigger_if-IsTriggered, calls-IsValid, trigger_both-AreTriggered, first_side, first-writing,
}
use net_ninja.IoManager.Cancel.{IsHanded, run_then}

minus_or : (a b : Bool) → (a && not b) ≡ false → (c : Bool) → ((a || (c && b)) && not b) ≡ false
minus_or a b h c = ground arith

-- What the system may report of a descriptor: the registered events, or fewer.
abbrev pub IsExpected : IoManager → ℕ → Events → Type 0
IsExpected m fd reported =
    ((reported.reading && not (is_registered m fd Event.read)) ≡ false)
    × ((reported.writing && not (is_registered m fd Event.write)) ≡ false)

abbrev pub ready_ctl : FdContext → ℕ → Events → Bool → Ctl
ready_ctl c fd reported broken =
    let left = minus_bits c.events (real_events reported broken c.events) in
    record { op = if some_bit left then Op.ctl_mod else Op.ctl_del; fd = fd; events = left }

real-registered :
    (reported : Events) (broken : Bool) (s : Events)
    → (reported.reading && not s.reading) ≡ false
    → (reported.writing && not s.writing) ≡ false
    → (((real_events reported broken s).reading && not s.reading) ≡ false)
      × (((real_events reported broken s).writing && not s.writing) ≡ false)
unfolding real_events
real-registered reported broken s h k = ground arith

dispatch_to-IsHanded :
    (epoll_ctl : Ctl → Bool) (m : IoManager) (c : FdContext) (fd : ℕ) (reported : Events)
    (broken : Bool)
    → IsValid m
    → get_elem? m.contexts fd ≡ some c
    → (reported.reading && not c.events.reading) ≡ false
    → (reported.writing && not c.events.writing) ≡ false
    → (done : Bool) × (m' : IoManager) × (done ≡ (
        some_bit (both_bits c.events (real_events reported broken c.events))
        && epoll_ctl (ready_ctl c fd reported broken)))
      × (dispatch_to epoll_ctl m c fd reported broken ≡ ok m')
      × IsHanded m done
          ((if (real_events reported broken c.events).reading then handed c Event.read else [])
            ++ (if (real_events reported broken c.events).writing
                then handed c Event.write
                else []))
          m'
unfolding dispatch_to
dispatch_to-IsHanded epoll_ctl m c fd reported broken v g h k =
    elim (Bool-cases (
      some_bit (both_bits c.events (real_events reported broken c.events))
      && epoll_ctl (ready_ctl c fd reported broken))) [
        | inl a ↦
            let real = real_events reported broken c.events in
            let (in_r, in_w) = real-registered reported broken c.events h k in
            let (d, m', d', m'', run, same, run', t) =
              trigger_both-AreTriggered real.reading real.writing
                (record m { calls = ready_ctl c fd reported broken ∷ m.calls }) c fd
                (calls-IsValid m _ v) g in_r in_w in
            (
              true,
              m'',
              sym a,
              if_true a _ _ ∙ run_then run _ ∙ run_then run' _,
              (t.valid, t.held_eq, t.tasks_eq),
            )
        | inr a ↦ (false, m, sym a, if_false a _ _, (v, refl, sym (append-nil m.tasks)))
      ]

read_side :
    (reported : Events) (broken : Bool) (c : FdContext)
    → (reported.reading && not c.events.reading) ≡ false
    → (if (real_events reported broken c.events).reading then handed c Event.read else []) ≡ (
        if reported.reading || broken
        then (if c.events.reading then handed c Event.read else [])
        else [])
unfolding real_events
read_side reported broken c h = ground arith

write_side :
    (reported : Events) (broken : Bool) (c : FdContext)
    → (reported.writing && not c.events.writing) ≡ false
    → (if (real_events reported broken c.events).writing then handed c Event.write else []) ≡ (
        if reported.writing || broken
        then (if c.events.writing then handed c Event.write else [])
        else [])
unfolding real_events
write_side reported broken c h = ground arith

trigger_if-missing :
    (m : IoManager) (c : FdContext) (fd : ℕ) (e : Event)
    → has c.events e ≡ false
    → trigger_if true m c fd e ≡ aborted
unfolding trigger_if trigger_in trigger_event
trigger_if-missing m c fd e h = rw h refl

run_aborted {ℓ κ} :
    {A : Type ℓ} {B : Type κ} {o : Outcome A}
    → o ≡ aborted
    → (f : A → Outcome B) → (o >>= f) ≡ aborted
run_aborted e f = rw e refl

dispatch_to-aborted :
    (epoll_ctl : Ctl → Bool) (m : IoManager) (c : FdContext) (fd : ℕ)
    → IsValid m
    → get_elem? m.contexts fd ≡ some c
    → c.events.reading ≡ true
    → c.events.writing ≡ false
    → ((ctl : Ctl) → epoll_ctl ctl ≡ true)
    → dispatch_to epoll_ctl m c fd (record { reading = true; writing = true }) false ≡ aborted
unfolding dispatch_to real_events first_side
dispatch_to-aborted epoll_ctl m c fd v g h k always =
    let (d, m', run, t) =
      trigger_if-IsTriggered true
        (record m {
          calls = ready_ctl c fd (record { reading = true; writing = true }) false ∷ m.calls;
        })
        c fd Event.read (calls-IsValid m _ v) g (ap (λ b. true && not b) h) in
    let missing : d.events.writing ≡ false =
      ap (λ x. x.events.writing) t.context_eq ∙ first-writing true c ∙ k in
    if_true
      (go c.events.reading c.events.writing h
        (always (ready_ctl c fd (record { reading = true; writing = true }) false)))
      _ _
    ∙ run_then run _
    ∙ run_aborted (trigger_if-missing m' d fd Event.write missing) _
  where
    go :
        {ctl : Bool} (r w : Bool)
        → r ≡ true
        → ctl ≡ true
        → (((r && true) || (w && true)) && ctl) ≡ true
    go r w h k = ground arith

-- Whether some registered event is reported, and epoll_ctl takes what is left of them.
abbrev pub is_taken : (Ctl → Bool) → IoManager → ℕ → Events → Bool → Bool
is_taken epoll_ctl m fd reported broken = elim (get_elem? m.contexts fd) [
  | none ↦ false
  | some c ↦
      some_bit (both_bits c.events (real_events reported broken c.events))
      && epoll_ctl (ready_ctl c fd reported broken)
]

-- On valid contexts, the loop in idle over an event of epoll that names registered events of a
-- descriptor in the vector does not abort and keeps them valid: what waited
-- for the events is handed to its schedulers, reading first, or, where epoll_ctl fails or there is
-- nothing to do, nothing changes hands.
pub dispatch-IsHanded :
    (epoll_ctl : Ctl → Bool) (m : IoManager) (fd : ℕ) (reported : Events) (broken : Bool)
    → IsValid m
    → fd < length m.contexts
    → IsExpected m fd reported
    → (done : Bool) × (m' : IoManager) × (done ≡ is_taken epoll_ctl m fd reported broken)
      × (dispatch epoll_ctl m fd reported broken ≡ ok m')
      × IsHanded m done
          ((if reported.reading || broken then waiters m fd Event.read else [])
            ++ (if reported.writing || broken then waiters m fd Event.write else []))
          m'
unfolding dispatch
dispatch-IsHanded epoll_ctl m fd reported broken v below x =
    let (c, g) = get-below fd m.contexts below in
    let r = registered_of m.contexts fd Event.read c g in
    let w = registered_of m.contexts fd Event.write c g in
    let h = ap (λ b. reported.reading && not b) (sym r) ∙ x.0 in
    let k = ap (λ b. reported.writing && not b) (sym w) ∙ x.1 in
    let (b, m', took, run, (valid, n, ts)) =
      dispatch_to-IsHanded epoll_ctl m c fd reported broken v g h k in
    (
      b,
      m',
      took ∙ sym (some_is g _ _),
      some_is g _ _ ∙ run,
      (
        valid,
        n,
        ts
            ∙ ap (λ l. m.tasks ++ (if b then l else []))
                (ap₂ ◌++◌ (read_side reported broken c h) (write_side reported broken c k))
            ∙ ap
                (λ l.
                  m.tasks
                  ++ (if b
                      then (if reported.reading || broken then l else [])
                        ++ (if reported.writing || broken
                            then (if has c.events Event.write then handed c Event.write else [])
                            else [])
                      else []))
                (sym (waiters_of m fd Event.read c g))
            ∙ ap
                (λ l.
                  m.tasks
                  ++ (if b
                      then (if reported.reading || broken then waiters m fd Event.read else [])
                        ++ (if reported.writing || broken then l else [])
                      else []))
                (sym (waiters_of m fd Event.write c g)),
      ),
    )

-- On valid contexts, an event of epoll that names reading, which is registered, and writing, which is
-- no longer registered, aborts in triggerEvent where epoll_ctl succeeds.
pub dispatch-aborted :
    (epoll_ctl : Ctl → Bool) (m : IoManager) (fd : ℕ)
    → IsValid m
    → is_registered m fd Event.read ≡ true
    → is_registered m fd Event.write ≡ false
    → ((ctl : Ctl) → epoll_ctl ctl ≡ true)
    → dispatch epoll_ctl m fd (record { reading = true; writing = true }) false ≡ aborted
unfolding dispatch
dispatch-aborted epoll_ctl m fd v r w always = elim (Option-cases (get_elem? m.contexts fd)) [
  | inl g ↦ absurd (true-false r (rw (registered_in, g) refl))
  | inr (c, g) ↦
      let here = sym (registered_of m.contexts fd Event.read c g) ∙ r in
      let gone = sym (registered_of m.contexts fd Event.write c g) ∙ w in
      some_is g _ _ ∙ dispatch_to-aborted epoll_ctl m c fd v g here gone always
]
