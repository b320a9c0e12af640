-- ===== src/FdManager/Shared.antt =====
-- The calls of src/fd_manager.cpp one after another, and of two threads at once.
use net_ninja.Common.{
  leb→le, ◌≤◌, ℕ, zero, suc, ◌+◌, ◌<◌, ◌≡◌, ◌≢◌, ◌⊎◌, refl, sym, ap, ◌∙◌, inl, inr, Bool, true,
  false, List, [], ◌∷◌, Option, none, some, leb, if◌then◌else◌, length, get_elem?, arith,
  length-append, length-set, get-set_other, Bool-cases, Option-cases,
}
use net_ninja.FdManager.{
  FdCtx, FdManager, TimeoutType, no_timeout, get_timeout, new_fd_manager, lookup, del, new_fd_ctx,
  create, get_fd,
}
use net_ninja.FdManager.Known.{
  IsValid, IsObject, eq_or_ne, get-nulls, length-nulls, or_null, lookup_set_self, create-IsValid,
  create_other,
}

null_some : {p : ℕ} → ◌≡◌ {A = Option ℕ} none (some p) → ⊥
null_some h = cc

pub new_fd_manager-IsValid : IsValid new_fd_manager
unfolding new_fd_manager lookup
new_fd_manager-IsValid = record {
  large = omega (arith, length-nulls 64);
  pointers = λ fd p g. absurd (null_some (sym (get-nulls 64 fd) ∙ g));
}

pub get_fd_known :
    (fstat : ℕ → Option Bool) (is_nonblock : ℕ → Bool) (m : FdManager) (fd p : ℕ)
    (auto_create : Bool)
    → lookup m fd ≡ some p
    → get_fd fstat is_nonblock m (some fd) auto_create ≡ (some p, m)
unfolding get_fd
get_fd_known fstat is_nonblock m fd p auto_create g = rw (get_fd, g) refl

pub get_fd_null :
    (fstat : ℕ → Option Bool) (is_nonblock : ℕ → Bool) (m : FdManager) (fd : ℕ) (auto_create : Bool)
    → lookup m fd ≡ none
    → get_fd fstat is_nonblock m (some fd) auto_create ≡ (
        if auto_create
        then (some (create fstat is_nonblock m fd).0, (create fstat is_nonblock m fd).1)
        else (none, m))
unfolding get_fd
get_fd_null fstat is_nonblock m fd auto_create g = rw (get_fd, g) refl

-- On a valid table, where each pointer reaches an object of its descriptor, `get` that may create gives
-- an object of the descriptor and keeps the table valid. It gives the one that is there and changes
-- nothing, or there is none and it gives a new one, as `FdCtx(fd)` leaves it. The next `get` of the descriptor gives the same one and changes nothing. Another descriptor keeps
-- what it has.
pub get_fd-IsKnown :
    (fstat : ℕ → Option Bool) (is_nonblock : ℕ → Bool) (m : FdManager) (fd other : ℕ)
    (auto_create : Bool)
    → IsValid m
    → fd ≢ other
    → (p : ℕ) × (m' : FdManager) × (get_fd fstat is_nonblock m (some fd) true ≡ (some p, m'))
      × IsValid m'
      × IsObject m' fd p
      × (((lookup m fd ≡ some p) × (m' ≡ m))
          ⊎ ((lookup m fd ≡ none)
              × (get_elem? m'.objects p ≡ some (new_fd_ctx fstat is_nonblock fd))))
      × (get_fd fstat is_nonblock m' (some fd) auto_create ≡ (some p, m'))
      × (lookup m' other ≡ lookup m other)
get_fd-IsKnown fstat is_nonblock m fd other auto_create v n = elim (Option-cases (lookup m fd)) [
  | inl g ↦
      let (w, here, object) = create-IsValid fstat is_nonblock m fd v in
      let (p, m') = create fstat is_nonblock m fd in
      (
        p,
        m',
        get_fd_null fstat is_nonblock m fd true g,
        w,
        w.pointers fd p here,
        inr (g, object),
        get_fd_known fstat is_nonblock m' fd p auto_create here,
        create_other fstat is_nonblock m fd other v n,
      )
  | inr (p, g) ↦ (
    p,
    m,
    get_fd_known fstat is_nonblock m fd p true g,
    v,
    v.pointers fd p g,
    inl (g, refl),
    get_fd_known fstat is_nonblock m fd p auto_create g,
    refl,
  )
]

lookup-del : (m : FdManager) (fd : ℕ) → lookup (del m fd) fd ≡ none
unfolding lookup del
lookup-del m fd = elim (Bool-cases (leb (length m.datas) fd)) [
  | inl h ↦ rw h (beyond m.datas fd (leb→le (length m.datas) fd h))
  | inr h ↦ rw h (lookup_set_self m.datas fd none (ground arith))
]
  where
    beyond : (l : List (Option ℕ)) (n : ℕ) → length l ≤ n → or_null (get_elem? l n) ≡ none
    beyond [] n h = refl
    beyond (p ∷ l) zero h = absurd (omega arith)
    beyond (p ∷ l) (suc n) h = beyond l n (omega arith)

lookup-del_other :
    (m : FdManager) (fd other : ℕ) → fd ≢ other → lookup (del m fd) other ≡ lookup m other
unfolding lookup del
lookup-del_other m fd other n = elim (Bool-cases (leb (length m.datas) fd)) [
  | inl h ↦ rw h refl
  | inr h ↦ rw h (ap or_null (get-set_other fd other m.datas none n))
]

length-del : (m : FdManager) (fd : ℕ) → length (del m fd).datas ≡ length m.datas
unfolding del
length-del m fd = elim (Bool-cases (leb (length m.datas) fd)) [
  | inl h ↦ rw h refl
  | inr h ↦ rw h (length-set fd m.datas none)
]

objects-del : (m : FdManager) (fd : ℕ) → (del m fd).objects ≡ m.objects
unfolding del
objects-del m fd = elim (Bool-cases (leb (length m.datas) fd)) [
  | inl h ↦ rw h refl
  | inr h ↦ rw h refl
]

del-IsValid : (m : FdManager) (fd : ℕ) → IsValid m → IsValid (del m fd)
del-IsValid m fd v = record {
  large = omega (arith, v.large, length-del m fd);
  pointers = λ q p g. elim (eq_or_ne fd q) [
    | inl e ↦ absurd (null_some (sym (ap (lookup (del m fd)) (sym e) ∙ lookup-del m fd) ∙ g))
    | inr n ↦
        let (c, o, f) = v.pointers q p (sym (lookup-del_other m fd q n) ∙ g) in
        (c, ap (λ (l : List FdCtx). get_elem? l p) (objects-del m fd) ∙ o, f)
  ];
}

create_place :
    (fstat : ℕ → Option Bool) (is_nonblock : ℕ → Bool) (m : FdManager) (fd : ℕ)
    → (create fstat is_nonblock m fd).0 ≡ length m.objects
unfolding create
create_place fstat is_nonblock m fd = refl

objects-create :
    (fstat : ℕ → Option Bool) (is_nonblock : ℕ → Bool) (m : FdManager) (fd : ℕ)
    → length (create fstat is_nonblock m fd).1.objects ≡ length m.objects + 1
unfolding create
objects-create fstat is_nonblock m fd = length-append m.objects _

no_timeout-new :
    (fstat : ℕ → Option Bool) (is_nonblock : ℕ → Bool) (fd : ℕ) (t : TimeoutType)
    → get_timeout (new_fd_ctx fstat is_nonblock fd) t ≡ no_timeout
unfolding get_timeout new_fd_ctx
no_timeout-new fstat is_nonblock fd TimeoutType.so_rcvtimeo = refl
no_timeout-new fstat is_nonblock fd TimeoutType.other_timeout = refl

-- On a valid table, a descriptor that was deleted has no object, until a `get` that may create makes a
-- new one, behind all that were made and without a timeout.
pub del-get_fd :
    (fstat : ℕ → Option Bool) (is_nonblock : ℕ → Bool) (m : FdManager) (fd : ℕ) (t : TimeoutType)
    → IsValid m
    → IsValid (del m fd)
      × (get_fd fstat is_nonblock (del m fd) (some fd) false ≡ (none, del m fd))
      × ((m' : FdManager) × (c : FdCtx) × (get_fd fstat is_nonblock (del m fd) (some fd) true
            ≡ (some (length m.objects), m'))
          × (get_elem? m'.objects (length m.objects) ≡ some c)
          × (get_timeout c t ≡ no_timeout))
del-get_fd fstat is_nonblock m fd t v =
    let w = del-IsValid m fd v in
    let gone = lookup-del m fd in
    let (x, here, object) = create-IsValid fstat is_nonblock (del m fd) fd w in
    let place : (create fstat is_nonblock (del m fd) fd).0 ≡ length m.objects =
      create_place fstat is_nonblock (del m fd) fd ∙ ap length (objects-del m fd) in
    (
      w,
      get_fd_null fstat is_nonblock (del m fd) fd false gone,
      (
        (create fstat is_nonblock (del m fd) fd).1,
        new_fd_ctx fstat is_nonblock fd,
        get_fd_null fstat is_nonblock (del m fd) fd true gone
            ∙ ap (λ p. (some p, (create fstat is_nonblock (del m fd) fd).1)) place,
        ap (get_elem? (create fstat is_nonblock (del m fd) fd).1.objects) (sym place) ∙ object,
        no_timeout-new fstat is_nonblock fd t,
      ),
    )

-- On a valid table, two threads that create an object of one descriptor, one after the other, hold
-- different objects, and the table keeps the second.
pub create-create :
    (fstat : ℕ → Option Bool) (is_nonblock : ℕ → Bool) (m : FdManager) (fd : ℕ)
    → IsValid m
    → let (p, m') = create fstat is_nonblock m fd in
      let (q, m'') = create fstat is_nonblock m' fd in (p < q) × (lookup m'' fd ≡ some q)
create-create fstat is_nonblock m fd v =
    let (w, here, object) = create-IsValid fstat is_nonblock m fd v in
    let (x, there, second) =
      create-IsValid fstat is_nonblock (create fstat is_nonblock m fd).1 fd w in
    (
      omega (
        arith,
        create_place fstat is_nonblock m fd,
        create_place fstat is_nonblock (create fstat is_nonblock m fd).1 fd,
        objects-create fstat is_nonblock m fd,
      ),
      there,
    )
