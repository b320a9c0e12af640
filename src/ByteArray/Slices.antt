-- ===== src/ByteArray/Slices.antt =====
-- Reading: the bytes that `read` returns, where it fails, and `setPosition`.
use Prim.Native.Nat.{max}
use net_ninja.Common.{
  ℕ, zero, suc, ◌+◌, ◌-◌, ◌*◌, ◌/◌, ◌%◌, ◌≤◌, ◌<◌, ◌≡◌, refl, sym, ap, ◌∙◌, List, [], ◌∷◌, arith,
  ltb, if◌then◌else◌, length, take, drop, ok, out_of_range, fault, lt→ltb, le→ltb, take-drop,
  drop_all, take-take, drop-append_add,
}
use net_ninja.ByteArray.{
  Node, ByteArray, read, read_from, read_loop, set_position, seek, get_read_size,
}
use net_ninja.ByteArray.Loop.{flat, read_loop-flat, seek-div}
use net_ninja.ByteArray.Invariant.{IsValid, div-mul_self, IsChain-drop}
use net_ninja.ByteArray.Place.{contents, flat-split, div_add, IsPlaced, IsPlaced-of}

-- `c` is `b` with the position moved on by `n`.
pub record IsAdvanced (b : ByteArray) (n : ℕ) (c : ByteArray) : Type 0 where
  pub valid : IsValid c
  pub position : c.position ≡ b.position + n
  pub size : c.size ≡ b.size
  pub base : c.base_size ≡ b.base_size
  pub endian : c.endian ≡ b.endian
  pub bytes : contents c ≡ contents b

read_from-read_loop :
    (nodes : List Node) (cur position npos n : ℕ)
    → 0 < length nodes
    → read_from nodes cur position npos (suc n) ≡ read_loop nodes cur position npos (suc n)
unfolding read_from
read_from-read_loop [] cur position npos n h = absurd (omega arith)
read_from-read_loop (x ∷ nodes) cur position npos n h = refl

read_from-zero :
    (nodes : List Node) (cur position npos : ℕ)
    → 0 < length nodes
    → read_from nodes cur position npos 0 ≡ ok ([], cur, position)
unfolding read_from
read_from-zero [] cur position npos h = absurd (omega arith)
read_from-zero (x ∷ nodes) cur position npos h = refl

pub pos_of_mul : (n base : ℕ) → 0 < n * base → 0 < n
pos_of_mul zero base h = absurd (omega arith)
pos_of_mul (suc n) base h = omega arith

pub moved_cursor :
    (b : ByteArray) (n : ℕ)
    → IsValid b
    → b.cur + (b.position % b.base_size + n) / b.base_size ≡ (b.position + n) / b.base_size
moved_cursor b n v =
    let moved : b.cur * b.base_size + (b.position % b.base_size + n) ≡ b.position + n =
      omega (arith, (IsPlaced-of b v).offset) in
    sym (div_add b.base_size b.cur (b.position % b.base_size + n) v.base_pos)
    ∙ ap (λ (t : ℕ). t / b.base_size) moved

take-drop-take {ℓ} :
    {A : Type ℓ} (n pos size : ℕ) (xs : List A)
    → pos + n ≤ size
    → take n (drop pos (take size xs)) ≡ take n (drop pos xs)
take-drop-take n pos size xs h =
    rw (take-drop n pos (take size xs), take-drop n pos xs, take-take (pos + n) size xs h) refl

-- Behind the start of its node, the position sees what it sees in the whole buffer.
pub slice-contents :
    (b : ByteArray) (n : ℕ)
    → IsValid b
    → b.position + n ≤ b.size
    → take n (drop (b.position % b.base_size) (flat (drop b.cur b.nodes)))
      ≡ take n (drop b.position (contents b))
slice-contents b n v h =
    let p : IsPlaced b = IsPlaced-of b v in
    let seen : drop b.position (flat b.nodes)
        ≡ drop (b.position % b.base_size) (flat (drop b.cur b.nodes)) =
      ap (λ (t : ℕ). drop t (flat b.nodes)) p.offset
      ∙ ap (drop (b.cur * b.base_size + b.position % b.base_size)) (flat-split b.cur b.nodes)
      ∙ drop-append_add (b.cur * b.base_size) (b.position % b.base_size) (flat (take b.cur b.nodes))
          (flat (drop b.cur b.nodes)) p.before in
    rw (take-drop-take n b.position b.size (flat b.nodes) h) (ap (take n) (sym seen))

read_from-slice :
    (b : ByteArray) (n : ℕ)
    → IsValid b
    → b.position + suc n ≤ b.size
    → read_from (drop b.cur b.nodes) b.cur b.position (b.position % b.base_size) (suc n)
      ≡ ok (
        take (suc n) (drop b.position (contents b)),
        (b.position + suc n) / b.base_size,
        b.position + suc n,
      )
read_from-slice b n v h =
    let p : IsPlaced b = IsPlaced-of b v in
    let some_left : 0 < length (drop b.cur b.nodes) * b.base_size =
      omega (arith, p.after, v.room) in
    read_from-read_loop (drop b.cur b.nodes) b.cur b.position (b.position % b.base_size) n
      (pos_of_mul (length (drop b.cur b.nodes)) b.base_size some_left)
    ∙ read_loop-flat b.base_size v.base_pos (drop b.cur b.nodes) b.cur b.position
        (b.position % b.base_size) (suc n) (IsChain-drop b.base_size b.cur b.nodes v.chain) p.inside
        (omega arith) (omega (arith, p.after, v.room))
    ∙ rw (slice-contents b (suc n) v h, moved_cursor b (suc n) v) refl

-- In a valid buffer whose position is not the end of the last node, a `read` of bytes that are
-- there returns them and moves the position behind them.
pub read-IsAdvanced :
    (b : ByteArray) (n : ℕ)
    → IsValid b
    → b.position + n ≤ b.size
    → b.position < b.capacity
    → (c : ByteArray) × (read b n ≡ ok (take n (drop b.position (contents b)), c))
      × IsAdvanced b n c
read-IsAdvanced b zero v h k =
    let p : IsPlaced b = IsPlaced-of b v in
    let some_left : 0 < length (drop b.cur b.nodes) * b.base_size =
      omega (arith, p.after, v.room) in
    let run =
      read_from-zero (drop b.cur b.nodes) b.cur b.position (b.position % b.base_size)
        (pos_of_mul (length (drop b.cur b.nodes)) b.base_size some_left) in
    (
      b,
      unfold read get_read_size in rw (le→ltb (b.size - b.position) 0 (omega arith), run) refl,
      record {
        valid = v;
        position = omega arith;
        size = refl;
        base = refl;
        endian = refl;
        bytes = refl;
      },
    )
read-IsAdvanced b (suc n) v h k = (
  record b { cur = (b.position + suc n) / b.base_size; position = b.position + suc n },
  unfold read get_read_size in
      rw (le→ltb (b.size - b.position) (suc n) (omega arith), read_from-slice b n v h) refl,
  record {
    valid = record {
      base_pos = v.base_pos;
      chain = v.chain;
      root = v.root;
      capacity = v.capacity;
      cursor = refl;
      within = h;
      room = v.room;
    };
    position = refl;
    size = refl;
    base = refl;
    endian = refl;
    bytes = refl;
  },
)

-- A `read` of more than is left throws, and does nothing else.
pub read_too_long : (b : ByteArray) (n : ℕ) → b.size - b.position < n → read b n ≡ out_of_range
unfolding read get_read_size
read_too_long b n h = rw (lt→ltb _ _ h)

-- In a valid buffer whose position is the end of the last node `m_cur` is null, and even an empty
-- block cannot be read.
pub read_empty_at_end : (b : ByteArray) → IsValid b → b.position ≡ b.capacity → read b 0 ≡ fault
unfolding read get_read_size read_from
read_empty_at_end b v h =
    let last : b.cur ≡ length b.nodes =
      v.cursor
      ∙ ap (λ (t : ℕ). t / b.base_size) (h ∙ v.capacity)
      ∙ div-mul_self (length b.nodes) b.base_size v.base_pos in
    rw
      (
        le→ltb (b.size - b.position) 0 (omega arith),
        drop_all b.cur b.nodes (omega (arith, last)),
        read_from,
      )
      refl

-- `c` is `b` moved to the position `n`; what is passed over counts as written.
pub record IsMoved (b : ByteArray) (n : ℕ) (c : ByteArray) : Type 0 where
  pub valid : IsValid c
  pub position : c.position ≡ n
  pub size : c.size ≡ max b.size n
  pub base : c.base_size ≡ b.base_size
  pub endian : c.endian ≡ b.endian
  pub old_bytes : take b.size (contents c) ≡ contents b

-- On a valid buffer `setPosition` up to the capacity moves there.
pub set_position-IsMoved :
    (b : ByteArray) (n : ℕ)
    → IsValid b
    → n ≤ b.capacity
    → (c : ByteArray) × (set_position b n ≡ ok c) × IsMoved b n c
set_position-IsMoved b n v h =
    let run : seek b.nodes 0 n ≡ ok (0 + n / b.base_size) =
      seek-div b.base_size v.base_pos b.nodes 0 n v.chain v.root (omega (arith, v.capacity)) in
    let marked : (if ltb b.size n then n else b.size) ≡ max b.size n = ground arith in
    (
      record b { position = n; size = max b.size n; cur = n / b.base_size },
      unfold set_position in
          rw (le→ltb b.capacity n h, run, marked)
            (ap (λ (t : ℕ). ok (record b { position = n; size = max b.size n; cur = t }))
              {x = 0 + n / b.base_size} {y = n / b.base_size} (omega arith)),
      record {
        valid = record {
          base_pos = v.base_pos;
          chain = v.chain;
          root = v.root;
          capacity = v.capacity;
          cursor = refl;
          within = omega arith;
          room = omega (arith, v.room);
        };
        position = refl;
        size = refl;
        base = refl;
        endian = refl;
        old_bytes = take-take b.size (max b.size n) (flat b.nodes) (omega arith);
      },
    )

-- Beyond the capacity `setPosition` throws.
pub set_position_beyond : (b : ByteArray) (n : ℕ) → b.capacity < n → set_position b n ≡ out_of_range
unfolding set_position
set_position_beyond b n h = rw (lt→ltb _ _ h)

pub IsAdvanced-trans :
    {b c d : ByteArray} {m n : ℕ} (k : ℕ)
    → IsAdvanced b m c
    → IsAdvanced c n d
    → m + n ≡ k
    → IsAdvanced b k d
IsAdvanced-trans k p q e = record {
  valid = q.valid;
  position = omega (arith, q.position, p.position);
  size = q.size ∙ p.size;
  base = q.base ∙ p.base;
  endian = q.endian ∙ p.endian;
  bytes = q.bytes ∙ p.bytes;
}
