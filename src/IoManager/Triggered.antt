-- ===== src/IoManager/Triggered.antt =====
-- triggerEvent of src/iomanager.cpp on one side of a context, and on both.
use net_ninja.Common.{
  get-set, ℕ, ◌+◌, ◌≡◌, refl, sym, ap, ◌∙◌, Bool, true, false, not, ◌&&◌, List, [], ◌++◌, some,
  arith, if◌then◌else◌, length, length-append, get_elem?, set, append-nil, append_assoc, ok,
}
use net_ninja.IoManager.{
  Event, FdContext, Ctl, IoManager, has, get_context, put_context, one_less, trigger_in, trigger_if,
}
use net_ninja.IoManager.Context.{cleared, trigger_event-cleared}
use net_ninja.IoManager.Table.{total, IsValid}
use net_ninja.IoManager.Calls.{handed, get-valid, cleared-IsValid, total-cleared}

-- Events that are registered, and tasks that were handed out.
abbrev pub held : IoManager → ℕ
held m = total m.contexts + length m.tasks

-- A side of a context that was triggered, or left alone.
pub record IsTriggered (b : Bool) (m : IoManager) (c : FdContext) (fd : ℕ) (e : Event)
    (d : FdContext) (m' : IoManager) : Type 0 where
  pub valid : IsValid m'
  pub placed : get_elem? m'.contexts fd ≡ some d
  pub held_eq : held m' ≡ held m
  pub tasks_eq : m'.tasks ≡ m.tasks ++ (if b then handed c e else [])
  pub calls_eq : m'.calls ≡ m.calls
  pub context_eq : d ≡ (if b then cleared c e else c)

pub trigger_if-IsTriggered :
    (b : Bool) (m : IoManager) (c : FdContext) (fd : ℕ) (e : Event)
    → IsValid m
    → get_elem? m.contexts fd ≡ some c
    → (b && not (has c.events e)) ≡ false
    → (d : FdContext) × (m' : IoManager) × (trigger_if b m c fd e ≡ ok (d, m'))
      × IsTriggered b m c fd e d m'
unfolding trigger_if trigger_in
trigger_if-IsTriggered true m c fd e v g h = (
  cleared c e,
  record m {
    pending = one_less m.pending;
    contexts = set m.contexts fd (cleared c e);
    tasks = m.tasks ++ handed c e;
  },
  rw (trigger_event-cleared c e (get-valid m fd c v g) (is_set (has c.events e) h)) refl,
  record {
    valid = cleared-IsValid m fd c v g e _ _ (is_set (has c.events e) h);
    placed = get-set fd m.contexts c (cleared c e) g;
    held_eq = omega (
      arith,
      total-cleared m fd c v g e (is_set (has c.events e) h),
      length-append m.tasks (handed c e),
    );
    tasks_eq = refl;
    calls_eq = refl;
    context_eq = refl;
  },
)
  where
    is_set : (b : Bool) → (true && not b) ≡ false → b ≡ true
    is_set b h = ground arith
trigger_if-IsTriggered false m c fd e v g h = (
  c,
  m,
  refl,
  record {
    valid = v;
    placed = g;
    held_eq = refl;
    tasks_eq = sym (append-nil m.tasks);
    calls_eq = refl;
    context_eq = refl;
  },
)

pub calls-IsValid : (m : IoManager) (cs : List Ctl) → IsValid m → IsValid (record m { calls = cs })
calls-IsValid m cs v = record { table = v.table; count = v.count; large = v.large }

pub trigger_if-true :
    (m : IoManager) (c : FdContext) (fd : ℕ) (e : Event)
    → trigger_in m c fd e ≡ trigger_if true m c fd e
unfolding trigger_if
trigger_if-true m c fd e = refl

-- Both sides, one after the other.
pub record AreTriggered (r w : Bool) (m : IoManager) (c : FdContext) (d : FdContext)
    (m' : IoManager) : Type 0 where
  pub valid : IsValid m'
  pub held_eq : held m' ≡ held m
  pub tasks_eq :
      m'.tasks
      ≡ m.tasks
        ++ ((if r then handed c Event.read else []) ++ (if w then handed c Event.write else []))
  pub calls_eq : m'.calls ≡ m.calls
  pub events_eq :
      d.events ≡ record { reading = c.events.reading && not r; writing = c.events.writing && not w }

unfoldable pub first_side : Bool → FdContext → FdContext
first_side r c = if r then cleared c Event.read else c

pub first-writing : (r : Bool) (c : FdContext) → (first_side r c).events.writing ≡ c.events.writing
unfolding put_context first_side
first-writing true c = refl
first-writing false c = refl

first-handed :
    (r : Bool) (c : FdContext) → handed (first_side r c) Event.write ≡ handed c Event.write
unfolding put_context get_context first_side
first-handed true c = refl
first-handed false c = refl

both-events :
    (r w : Bool) (c : FdContext)
    → (if w then cleared (first_side r c) Event.write else first_side r c).events
      ≡ record { reading = c.events.reading && not r; writing = c.events.writing && not w }
unfolding put_context first_side
both-events r w c = ground arith

pub trigger_both-AreTriggered :
    (r w : Bool) (m : IoManager) (c : FdContext) (fd : ℕ)
    → IsValid m
    → get_elem? m.contexts fd ≡ some c
    → (r && not c.events.reading) ≡ false
    → (w && not c.events.writing) ≡ false
    → (d : FdContext) × (m' : IoManager) × (d' : FdContext) × (m'' : IoManager) × (trigger_if r m c
          fd Event.read
        ≡ ok (d, m'))
      × (d.events.writing ≡ c.events.writing)
      × (trigger_if w m' d fd Event.write ≡ ok (d', m''))
      × AreTriggered r w m c d' m''
unfolding first_side
trigger_both-AreTriggered r w m c fd v g h k =
    let (d, m', run, t) = trigger_if-IsTriggered r m c fd Event.read v g h in
    let same : d.events.writing ≡ c.events.writing =
      ap (λ x. x.events.writing) t.context_eq ∙ first-writing r c in
    let (d', m'', run', t') =
      trigger_if-IsTriggered w m' d fd Event.write t.valid t.placed
        (ap (λ b. w && not b) same ∙ k) in
    (
      d,
      m',
      d',
      m'',
      run,
      same,
      run',
      record {
        valid = t'.valid;
        held_eq = t'.held_eq ∙ t.held_eq;
        tasks_eq =
            t'.tasks_eq
            ∙ ap (λ l. l ++ (if w then handed d Event.write else [])) t.tasks_eq
            ∙ append_assoc m.tasks _ _
            ∙ ap
                (λ l. m.tasks ++ ((if r then handed c Event.read else []) ++ (if w then l else [])))
                (ap (λ x. handed x Event.write) t.context_eq ∙ first-handed r c);
        calls_eq = t'.calls_eq ∙ t.calls_eq;
        events_eq =
            ap (λ x. x.events) t'.context_eq
            ∙ ap (λ x. (if w then cleared x Event.write else x).events) t.context_eq
            ∙ both-events r w c;
      },
    )
