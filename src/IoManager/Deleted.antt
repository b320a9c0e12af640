-- ===== src/IoManager/Deleted.antt =====
-- delEvent of src/iomanager.cpp.
use net_ninja.Common.{
  get-set, ℕ, ◌+◌, ◌≡◌, refl, ◌∙◌, inl, inr, Bool, true, false, ◌&&◌, some, arith, if◌then◌else◌,
  get_elem?, set, Bool-cases, Option-cases,
}
use net_ninja.IoManager.{Event, FdContext, Ctl, IoManager, has, del_event_from, del_event}
use net_ninja.IoManager.Context.{cleared}
use net_ninja.IoManager.Table.{total, IsValid}
use net_ninja.IoManager.Calls.{
  cleared-IsValid, total-cleared, is_registered, drop_ctl, registered_of, cleared-has,
}

del_event_from-IsValid :
    (epoll_ctl : Ctl → Bool) (m : IoManager) (c : FdContext) (fd : ℕ) (e : Event)
    → IsValid m
    → get_elem? m.contexts fd ≡ some c
    → let (deleted, m') = del_event_from epoll_ctl m c fd e in
      IsValid m'
      × ((deleted && is_registered m' fd e) ≡ false)
      × (total m'.contexts + (if deleted then 1 else 0) ≡ total m.contexts)
      × (m'.tasks ≡ m.tasks)
unfolding del_event_from
del_event_from-IsValid epoll_ctl m c fd e v g =
    elim (Bool-cases (has c.events e && epoll_ctl (drop_ctl c fd e))) [
      | inl h ↦ rw h (
        cleared-IsValid m fd c v g e _ _ (left (has c.events e) _ h),
        registered_of (set m.contexts fd (cleared c e)) fd e (cleared c e)
              (get-set fd m.contexts c (cleared c e) g)
            ∙ cleared-has c e,
        total-cleared m fd c v g e (left (has c.events e) _ h),
        refl,
      )
      | inr h ↦ rw h (v, refl, omega arith, refl)
    ]
  where
    left : (a b : Bool) → (a && b) ≡ true → a ≡ true
    left a b h = ground arith

-- `delEvent` answers whether the event was registered and epoll_ctl dropped it. Then it is one event
-- less, and not registered. Nothing is handed out.
pub del_event-IsValid :
    (epoll_ctl : Ctl → Bool) (m : IoManager) (fd : ℕ) (e : Event)
    → IsValid m
    → let (deleted, m') = del_event epoll_ctl m fd e in
      IsValid m'
      × ((deleted && is_registered m' fd e) ≡ false)
      × (total m'.contexts + (if deleted then 1 else 0) ≡ total m.contexts)
      × (m'.tasks ≡ m.tasks)
unfolding del_event
del_event-IsValid epoll_ctl m fd e v = elim (Option-cases (get_elem? m.contexts fd)) [
  | inl g ↦ rw (del_event, g) (v, refl, omega arith, refl)
  | inr (c, g) ↦ rw (del_event, g) (del_event_from-IsValid epoll_ctl m c fd e v g)
]
