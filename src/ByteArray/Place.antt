-- ===== src/ByteArray/Place.antt =====
-- Where the position lies in the chain, and the bytes of a buffer.
use net_ninja.Common.{
  ℕ, zero, suc, ◌+◌, ◌-◌, ◌*◌, ◌/◌, ◌%◌, ◌≤◌, ◌<◌, ◌≡◌, sym, ap, ◌∙◌, List, ◌++◌, arith, length,
  take, drop, length-take, length-drop, take-append-drop,
}
use native.Mathlib.Nat.{div-add-mod, mod-lt}
use net_ninja.ByteArray.{Node, ByteArray}
use net_ninja.ByteArray.Loop.{flat, length-flat, div_step}
use net_ninja.ByteArray.Invariant.{IsValid, flat-append, IsChain-take}

-- The bytes written so far.
abbrev pub contents : ByteArray → List ℕ
contents b = take b.size (flat b.nodes)

pub flat-split :
    (k : ℕ) (nodes : List Node) → flat nodes ≡ flat (take k nodes) ++ flat (drop k nodes)
flat-split k nodes =
    sym (ap flat (take-append-drop k nodes)) ∙ flat-append (take k nodes) (drop k nodes)

zero_mul_add : (base x : ℕ) → 0 * base + x ≡ x
zero_mul_add base x = omega arith

suc_mul_add : (base n x : ℕ) → suc n * base + x ≡ base + (n * base + x)
suc_mul_add base n x = omega arith

pub div_add : (base n x : ℕ) → 0 < base → (n * base + x) / base ≡ n + x / base
div_add base zero x h = rw (zero_mul_add base x) (omega arith)
div_add base (suc n) x h =
    rw (suc_mul_add base n x) (omega (arith, div_step base (n * base + x) h, div_add base n x h))

le_of_mul-le : (n m base : ℕ) → 0 < base → n * base ≤ m * base → n ≤ m
le_of_mul-le n m base h l = grind arith

pub length_of-take {ℓ} : {A : Type ℓ} (k : ℕ) (xs : List A) → k ≤ length xs → length (take k xs) ≡ k
length_of-take k xs h = omega (arith, length-take k xs)

-- The position lies `position % base` bytes behind the start of the node `cur`.
pub record IsPlaced (b : ByteArray) : Type 0 where
  pub start : b.cur ≤ length b.nodes
  pub before : length (flat (take b.cur b.nodes)) ≡ b.cur * b.base_size
  pub offset : b.position ≡ b.cur * b.base_size + b.position % b.base_size
  pub inside : b.position % b.base_size < b.base_size
  pub after :
      b.position % b.base_size + (b.capacity - b.position)
      ≡ length (drop b.cur b.nodes) * b.base_size

placed_offset :
    (b : ByteArray) → IsValid b → b.position ≡ b.cur * b.base_size + b.position % b.base_size
placed_offset b v =
    omega (arith, div-add-mod b.position b.base_size, ap (λ (t : ℕ). t * b.base_size) v.cursor)

placed_start : (b : ByteArray) → IsValid b → b.cur ≤ length b.nodes
placed_start b v =
    le_of_mul-le b.cur (length b.nodes) b.base_size v.base_pos
      (omega (arith, placed_offset b v, v.capacity, v.within, v.room))

pub IsPlaced-of : (b : ByteArray) → IsValid b → IsPlaced b
IsPlaced-of b v =
    let start = placed_start b v in
    let split : length b.nodes ≡ b.cur + length (drop b.cur b.nodes) =
      omega (arith, length-drop b.cur b.nodes) in
    record {
      start = start;
      before =
          length-flat b.base_size (take b.cur b.nodes)
            (IsChain-take b.base_size b.cur b.nodes v.chain)
          ∙ ap (λ (t : ℕ). t * b.base_size) (length_of-take b.cur b.nodes start);
      offset = placed_offset b v;
      inside = mod-lt b.position v.base_pos;
      after = omega (
        arith,
        placed_offset b v,
        v.capacity,
        v.within,
        v.room,
        ap (λ (t : ℕ). t * b.base_size) split,
      );
    }
