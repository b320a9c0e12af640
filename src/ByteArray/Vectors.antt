-- ===== src/ByteArray/Vectors.antt =====
-- getReadBuffers and getWriteBuffers: the blocks of memory that a socket reads from or writes to.
-- An iovec names its memory by the node it lies in and the offset there.
use net_ninja.Common.{
  ℕ, zero, suc, ◌+◌, ◌-◌, ◌*◌, ◌/◌, ◌%◌, ◌≤◌, ◌<◌, ◌≡◌, refl, sym, ap, ◌∙◌, List, [], ◌∷◌, ◌++◌,
  false, none, some, arith, ltb, leb, ◌==◌, if◌then◌else◌, le→leb, lt→leb, length, take, drop,
  get_elem?, length-append, length-drop, drop-append_le, take-append_le, take-append_over,
  append_assoc, append-nil, take-append-drop, Outcome, ok, fault, ◌>>=◌,
}
use Prim.Native.Nat.{min}
use mathlib.Core.Path.{ap₂}
use native.Mathlib.Decide.{dec_le, dec_lt}
use net_ninja.ByteArray.{Node, ByteArray, Allocator, add_capacity, get_read_size}
use net_ninja.ByteArray.Loop.{flat, IsChain}
use net_ninja.ByteArray.Invariant.{IsValid, IsGrown, add_capacity-IsGrown, IsChain-drop}
use net_ninja.ByteArray.Place.{contents, IsPlaced, IsPlaced-of, length_of-take}
use net_ninja.ByteArray.Contract.{grown-contents}
use net_ninja.ByteArray.Slices.{slice-contents}

pub record Iovec : Type 0 where
  pub node : ℕ
  pub base : ℕ
  pub len : ℕ

-- The loop that the three functions share.
unfoldable pub collect : List Node → ℕ → ℕ → ℕ → Outcome (List Iovec)
collect [] cur npos len = fault
collect (n ∷ rest) cur npos len =
    let ncap = n.size - npos in
    let more = do
      vs ← collect rest (cur + 1) 0 (len - ncap)
      ok (record { node = cur; base = npos; len = ncap } ∷ vs)
    in if leb len ncap then ok (record { node = cur; base = npos; len = len } ∷ []) else more

unfoldable pub clip : ByteArray → ℕ → ℕ
unfolding get_read_size
clip b len = if ltb (get_read_size b) len then get_read_size b else len

unfoldable pub get_read_buffers : ByteArray → ℕ → Outcome (List Iovec × ℕ)
get_read_buffers b len = if clip b len == 0 then ok ([], 0) else do
  vs ← collect (drop b.cur b.nodes) b.cur (b.position % b.base_size) (clip b len)
  ok (vs, clip b len)

-- The variant with a position: it finds the node from the root, and still clips by `m_position`.
unfoldable pub get_read_buffers_at : ByteArray → ℕ → ℕ → Outcome (List Iovec × ℕ)
get_read_buffers_at b len position = if clip b len == 0 then ok ([], 0) else do
  vs ←
      collect (drop (position / b.base_size) b.nodes) (position / b.base_size)
        (position % b.base_size) (clip b len)
  ok (vs, clip b len)

unfoldable pub get_write_buffers : Allocator → ByteArray → ℕ → Outcome (List Iovec × ℕ × ByteArray)
get_write_buffers al b len =
    let c = add_capacity al b len in
    if len == 0
    then ok ([], 0, b)
    else do vs ← collect (drop c.cur c.nodes) c.cur (c.position % c.base_size) len; ok (vs, len, c)

abbrev pub node_bytes : List Node → ℕ → List ℕ
node_bytes nodes i = elim (get_elem? nodes i) [ none ↦ [] | some n ↦ n.ptr ]

-- What `writev` sends for the blocks, in order.
abbrev pub gather : List Node → List Iovec → List ℕ
gather nodes [] = []
gather nodes (v ∷ vs) = take v.len (drop v.base (node_bytes nodes v.node)) ++ gather nodes vs

abbrev pub total : List Iovec → ℕ
total [] = 0
total (v ∷ vs) = v.len + total vs

node_bytes-middle :
    (before rest : List Node) (n : Node) (cur : ℕ)
    → length before ≡ cur
    → node_bytes (before ++ (n ∷ rest)) cur ≡ n.ptr
node_bytes-middle [] rest n zero e = refl
node_bytes-middle [] rest n (suc cur) e = absurd (omega arith)
node_bytes-middle (x ∷ before) rest n zero e = absurd (omega arith)
node_bytes-middle (x ∷ before) rest n (suc cur) e =
    node_bytes-middle before rest n cur (omega arith)

module _ (base : ℕ) (base_pos : 0 < base) where
  abbrev Collects : List Node → List Node → ℕ → ℕ → ℕ → Type 0
  Collects before rest cur npos len =
      (vs : List Iovec) × (collect rest cur npos len ≡ ok vs)
      × (total vs ≡ len)
      × (gather (before ++ rest) vs ≡ take len (drop npos (flat rest)))

  collect_last :
      (before : List Node) (n : Node) (rest : List Node) (cur npos len : ℕ)
      → IsChain base (n ∷ rest)
      → length before ≡ cur
      → npos + len ≤ base
      → Collects before (n ∷ rest) cur npos len
  unfolding collect
  collect_last before n rest cur npos len chain at h = (
    record { node = cur; base = npos; len = len } ∷ [],
    rw (chain.0.0, le→leb len (base - npos) (omega arith)) refl,
    omega arith,
    append-nil _
        ∙ ap (λ (t : List ℕ). take len (drop npos t)) (node_bytes-middle before rest n cur at)
        ∙ sym (
            take-append_le len (drop npos n.ptr) (flat rest)
              (omega (arith, length-drop npos n.ptr)))
        ∙ ap (take len) (sym (drop-append_le npos n.ptr (flat rest) (omega arith))),
  )

  collect_more :
      (before : List Node) (n : Node) (rest : List Node) (cur npos len : ℕ)
      → IsChain base (n ∷ rest)
      → length before ≡ cur
      → npos < base
      → base < npos + len
      → Collects (before ++ (n ∷ [])) rest (cur + 1) 0 (len - (base - npos))
      → Collects before (n ∷ rest) cur npos len
  unfolding collect
  collect_more before n rest cur npos len chain at h over (vs, run, sum, bytes) =
      let ncap : ℕ = base - npos in
      (
        record { node = cur; base = npos; len = ncap } ∷ vs,
        rw (chain.0.0, lt→leb len (base - npos) (omega arith), run) refl,
        omega (arith, sum),
        ap₂ ◌++◌
              (ap (λ (t : List ℕ). take ncap (drop npos t))
                (node_bytes-middle before rest n cur at))
              (ap (λ (t : List Node). gather t vs) (sym (append_assoc before (n ∷ []) rest))
                ∙ bytes)
            ∙ take-append_over ncap len (drop npos n.ptr) (flat rest)
                (omega (arith, length-drop npos n.ptr)) (omega arith)
            ∙ ap (take len) (sym (drop-append_le npos n.ptr (flat rest) (omega arith))),
      )

  collect-gather :
      (before rest : List Node) (cur npos len : ℕ)
      → IsChain base rest
      → length before ≡ cur
      → npos < base
      → 0 < len
      → npos + len ≤ length rest * base
      → Collects before rest cur npos len
  collect-gather before [] cur npos len chain at h pos fits = absurd (omega arith)
  collect-gather before (n ∷ rest) cur npos len chain at h pos fits =
      elim (dec_le (npos + len) base) [
        | yes inside ↦ collect_last before n rest cur npos len chain at inside
        | no outside ↦ collect_more before n rest cur npos len chain at h (omega arith) (
            collect-gather (before ++ (n ∷ [])) rest (cur + 1) 0 (len - (base - npos)) chain.1
              (omega (arith, length-append before (n ∷ []))) base_pos (omega arith) (omega arith))
      ]

-- The blocks at the position of a buffer, for a length that its chain holds.
collect_at :
    (b : ByteArray) (len : ℕ)
    → IsValid b
    → 0 < len
    → b.position + len ≤ b.capacity
    → (vs : List Iovec) × (collect (drop b.cur b.nodes) b.cur (b.position % b.base_size) len
        ≡ ok vs)
      × (total vs ≡ len)
      × (gather b.nodes vs ≡ take len (drop (b.position % b.base_size) (flat (drop b.cur b.nodes))))
collect_at b len v pos h =
    let p : IsPlaced b = IsPlaced-of b v in
    let (vs, run, sum, bytes) =
      collect-gather b.base_size v.base_pos (take b.cur b.nodes) (drop b.cur b.nodes) b.cur
        (b.position % b.base_size) len (IsChain-drop b.base_size b.cur b.nodes v.chain)
        (length_of-take b.cur b.nodes p.start) p.inside pos (omega (arith, p.after)) in
    (
      vs,
      run,
      sum,
      ap (λ (t : List Node). gather t vs) (sym (take-append-drop b.cur b.nodes)) ∙ bytes,
    )

clip-min : (b : ByteArray) (len : ℕ) → clip b len ≡ min len (b.size - b.position)
unfolding clip
clip-min b len = ground arith

nonzero : (n : ℕ) → 0 < n → (n == 0) ≡ false
nonzero n h = ground arith

-- On a valid buffer `getReadBuffers` hands out blocks that hold the next `len` bytes, or all that
-- are left, in order, and returns how many bytes that is.
pub get_read_buffers-gather :
    (b : ByteArray) (len : ℕ)
    → IsValid b
    → (vs : List Iovec) × (get_read_buffers b len ≡ ok (vs, min len (b.size - b.position)))
      × (total vs ≡ min len (b.size - b.position))
      × (gather b.nodes vs ≡ take (min len (b.size - b.position)) (drop b.position (contents b)))
get_read_buffers-gather b len v = elim (dec_lt 0 (min len (b.size - b.position))) [
  | yes some_left ↦
      let (vs, run, sum, bytes) =
        collect_at b (min len (b.size - b.position)) v some_left
          (omega (arith, v.within, v.room)) in
      (
        vs,
        unfold get_read_buffers in
            rw (clip-min b len, nonzero (min len (b.size - b.position)) some_left, run) refl,
        sum,
        bytes ∙ slice-contents b (min len (b.size - b.position)) v (omega (arith, v.within)),
      )
  | no none_left ↦
      let e : min len (b.size - b.position) ≡ 0 = omega arith in
      ([], unfold get_read_buffers in rw (clip-min b len, e) refl, sym e, rw e refl)
]

-- On a valid buffer `getWriteBuffers` hands out blocks of `len` bytes in a valid buffer that keeps
-- the bytes and the position, and has room for them.
pub get_write_buffers-room :
    (al : Allocator) (b : ByteArray) (len : ℕ)
    → IsValid b
    → (vs : List Iovec) × (c : ByteArray) × (get_write_buffers al b len ≡ ok (vs, len, c))
      × (total vs ≡ len)
      × IsValid c
      × (c.position ≡ b.position)
      × (b.position + len ≤ c.capacity)
      × (contents c ≡ contents b)
get_write_buffers-room al b len v = elim (dec_lt 0 len) [
  | yes some_asked ↦
      let c : ByteArray = add_capacity al b len in
      let g : IsGrown b len c = add_capacity-IsGrown al b len v in
      let (vs, run, sum, bytes) = collect_at c len g.valid some_asked g.enough in
      (
        vs,
        c,
        unfold get_write_buffers in rw (nonzero len some_asked, run) refl,
        sum,
        g.valid,
        g.position,
        omega (arith, g.enough, g.position),
        grown-contents b c v g,
      )
  | no none_asked ↦
      let e : len ≡ 0 = omega arith in
      (
        [],
        b,
        unfold get_write_buffers in rw e refl,
        sym e,
        v,
        refl,
        omega (arith, v.within, v.room),
        refl,
      )
]
