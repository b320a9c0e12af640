-- ===== src/ByteArray/Invariant.antt =====
-- The invariant of a buffer, and that every operation keeps it.
use net_ninja.Common.{
  ℕ, zero, suc, ◌+◌, ◌-◌, ◌*◌, ◌/◌, ◌≤◌, ◌<◌, ◌≡◌, refl, sym, ap, ◌∙◌, inl, inr, List, [], ◌∷◌,
  ◌++◌, arith, leb, ◌==◌, if◌then◌else◌, Bool-cases, leb→le, ==_iff, length-take, length, take,
  drop, length-append, append-nil, append_assoc,
}
use Prim.Native.Nat.{min}
use native.Mathlib.Nat.{div-add-mod, mod-lt}
use net_ninja.ByteArray.{
  Node, ByteArray, Allocator, new_node, create, append_nodes, grow, add_capacity, ceil_div,
  get_capacity, clear,
}
use net_ninja.ByteArray.Loop.{flat, IsChain, IsNode, div_below, div_step}

pub record IsValid (b : ByteArray) : Type 0 where
  pub base_pos : 0 < b.base_size
  pub chain : IsChain b.base_size b.nodes
  pub root : 0 < length b.nodes
  pub capacity : b.capacity ≡ length b.nodes * b.base_size
  pub cursor : b.cur ≡ b.position / b.base_size
  pub within : b.position ≤ b.size
  pub room : b.size ≤ b.capacity

pub IsChain-append :
    (base : ℕ) (xs ys : List Node) → IsChain base xs → IsChain base ys → IsChain base (xs ++ ys)
IsChain-append base [] ys h k = k
IsChain-append base (x ∷ xs) ys h k = (h.0, IsChain-append base xs ys h.1 k)

pub IsChain-take : (base k : ℕ) (xs : List Node) → IsChain base xs → IsChain base (take k xs)
IsChain-take base zero xs h = tt
IsChain-take base (suc k) [] h = tt
IsChain-take base (suc k) (x ∷ xs) h = (h.0, IsChain-take base k xs h.1)

pub IsChain-drop : (base k : ℕ) (xs : List Node) → IsChain base xs → IsChain base (drop k xs)
IsChain-drop base zero xs h = h
IsChain-drop base (suc k) [] h = tt
IsChain-drop base (suc k) (x ∷ xs) h = IsChain-drop base k xs h.1

pub flat-append : (xs ys : List Node) → flat (xs ++ ys) ≡ flat xs ++ flat ys
flat-append [] ys = refl
flat-append (n ∷ xs) ys = rw (flat-append xs ys) (sym (append_assoc n.ptr (flat xs) (flat ys)))

new_node-IsNode : (al : Allocator) (base : ℕ) → IsNode base (new_node al base)
unfolding new_node
new_node-IsNode al base = (refl, al.length-raw base)

pub create-IsValid : (al : Allocator) (base : ℕ) → 0 < base → IsValid (create al base)
unfolding create
create-IsValid al base h = record {
  base_pos = h;
  chain = (new_node-IsNode al base, tt);
  root = omega arith;
  capacity = omega arith;
  cursor = sym (div_below base 0 h);
  within = omega arith;
  room = omega arith;
}

-- The nodes that `addCapacity` appends.
pub append_nodes-IsChain :
    (al : Allocator) (base count : ℕ) (nodes : List Node) (capacity : ℕ)
    → IsChain base nodes
    → (more : List Node) × ((append_nodes al base count nodes capacity).0 ≡ nodes ++ more)
      × IsChain base more
      × (length more ≡ count)
      × ((append_nodes al base count nodes capacity).1 ≡ capacity + count * base)
unfolding append_nodes
append_nodes-IsChain al base zero nodes capacity chain =
    ([], sym (append-nil nodes), tt, refl, omega arith)
append_nodes-IsChain al base (suc count) nodes capacity chain =
    let new : List Node = new_node al base ∷ [] in
    let new_chain : IsChain base new = (new_node-IsNode al base, tt) in
    let (more, e, c, l, cap) =
      append_nodes-IsChain al base count (nodes ++ new) (capacity + base)
        (IsChain-append base nodes new chain new_chain) in
    (
      new_node al base ∷ more,
      e ∙ append_assoc nodes new more,
      (new_node-IsNode al base, c),
      ap suc l,
      omega (arith, cap),
    )

ceil_div-enough : (size base : ℕ) → 0 < base → size ≤ ceil_div size base * base
unfolding ceil_div
ceil_div-enough size base h =
    omega (arith, div-add-mod (size + base - 1) base, mod-lt (size + base - 1) h)

-- What `addCapacity` leaves: the same buffer, with room for `size` bytes at the position.
pub record IsGrown (b : ByteArray) (size : ℕ) (c : ByteArray) : Type 0 where
  pub valid : IsValid c
  pub base : c.base_size ≡ b.base_size
  pub position : c.position ≡ b.position
  pub marked : c.size ≡ b.size
  pub endian : c.endian ≡ b.endian
  pub enough : c.position + size ≤ c.capacity
  pub more : List Node
  pub nodes : c.nodes ≡ b.nodes ++ more

mul_suc_left : (n base : ℕ) → suc n * base ≡ base + n * base
mul_suc_left n base = omega arith

pub div-mul_self : (n base : ℕ) → 0 < base → n * base / base ≡ n
div-mul_self zero base h = omega (arith, div_below base 0 h)
div-mul_self (suc n) base h =
    ap (λ (t : ℕ). t / base) (mul_suc_left n base)
    ∙ omega (arith, div_step base (n * base) h, div-mul_self n base h)

grown_cursor :
    (b : ByteArray)
    → IsValid b
    → (if get_capacity b == 0 then length b.nodes else b.cur) ≡ b.position / b.base_size
unfolding get_capacity
grown_cursor b v = ground (
  arith,
  div-mul_self (length b.nodes) b.base_size v.base_pos,
  ap (λ (t : ℕ). t / b.base_size) v.capacity,
)

grow-IsGrown :
    (al : Allocator) (b : ByteArray) (size count : ℕ) (more : List Node)
    → IsValid b
    → (append_nodes al b.base_size count b.nodes b.capacity).0 ≡ b.nodes ++ more
    → (append_nodes al b.base_size count b.nodes b.capacity).1 ≡ b.capacity + count * b.base_size
    → IsChain b.base_size more
    → length more ≡ count
    → size ≤ b.capacity - b.position + count * b.base_size
    → IsGrown b size (grow al b count)
unfolding grow
grow-IsGrown al b size count more v e cap c l many = record {
  valid = record {
    base_pos = v.base_pos;
    chain = rw e (IsChain-append b.base_size b.nodes more v.chain c);
    root = rw e (omega (arith, length-append b.nodes more, v.root));
    capacity = rw (cap, e, length-append b.nodes more, l) (omega (arith, v.capacity));
    cursor = grown_cursor b v;
    within = v.within;
    room = rw cap (omega (arith, v.room));
  };
  base = refl;
  position = refl;
  marked = refl;
  endian = refl;
  enough = rw cap (omega (arith, v.room, v.within));
  more = more;
  nodes = e;
}

same-IsGrown :
    (b : ByteArray) (size : ℕ) → IsValid b → b.position + size ≤ b.capacity → IsGrown b size b
same-IsGrown b size v h = record {
  valid = v;
  base = refl;
  position = refl;
  marked = refl;
  endian = refl;
  enough = h;
  more = [];
  nodes = sym (append-nil b.nodes);
}

-- On a valid buffer `addCapacity` keeps the invariant, the position, the size and the bytes, and
-- makes room.
pub add_capacity-IsGrown :
    (al : Allocator) (b : ByteArray) (size : ℕ)
    → IsValid b
    → IsGrown b size (add_capacity al b size)
unfolding add_capacity get_capacity
add_capacity-IsGrown al b size v =
    let count : ℕ = ceil_div (size - (b.capacity - b.position)) b.base_size in
    let (more, e, c, l, cap) =
      append_nodes-IsChain al b.base_size count b.nodes b.capacity v.chain in
    elim (Bool-cases (size == 0)) [
      | inl none_asked ↦
          rw none_asked
            (same-IsGrown b size v (omega (arith, v.room, v.within, (==_iff size 0).0 none_asked)))
      | inr some_asked ↦ elim (Bool-cases (leb size (b.capacity - b.position))) [
        | inl fits ↦
            rw (some_asked, fits)
              (same-IsGrown b size v (omega (arith, v.room, v.within, leb→le _ _ fits)))
        | inr full ↦
            rw (some_asked, full)
              (grow-IsGrown al b size count more v e cap c l (
                omega (
                  arith,
                  ceil_div-enough (size - (b.capacity - b.position)) b.base_size v.base_pos,
                )))
      ]
    ]

root_only : (n base : ℕ) → 0 < n → base ≡ min 1 n * base
root_only n base h =
    let e : min 1 n ≡ 1 = omega arith in sym (ap (λ (t : ℕ). t * base) e ∙ omega arith)

pub clear-IsValid : (b : ByteArray) → IsValid b → IsValid (clear b)
unfolding clear
clear-IsValid b v = record {
  base_pos = v.base_pos;
  chain = IsChain-take b.base_size 1 b.nodes v.chain;
  root = omega (arith, length-take 1 b.nodes, v.root);
  capacity = rw (length-take 1 b.nodes) (root_only (length b.nodes) b.base_size v.root);
  cursor = sym (div_below b.base_size 0 v.base_pos);
  within = omega arith;
  room = omega arith;
}
