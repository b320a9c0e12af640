-- ===== src/ByteArray/Contract.antt =====
-- What a buffer promises: a sequence of bytes with a position. Each operation is stated on that view.
use Prim.Native.Nat.{max}
use net_ninja.Common.{
  ℕ, ◌+◌, ◌*◌, ◌/◌, ◌%◌, ◌≡◌, refl, sym, ap, ◌∙◌, List, [], ◌∷◌, ◌++◌, arith, ltb, if◌then◌else◌,
  length, take, drop, overwrite, length-append, length-take, length-drop, take-overwrite,
  take-append-drop, take-append_le, overwrite-append_right, ok,
}
use net_ninja.ByteArray.{Node, ByteArray, Allocator, add_capacity, write}
use net_ninja.ByteArray.Loop.{flat, IsChain, length-flat, write_loop-flat}
use net_ninja.ByteArray.Invariant.{
  IsValid, IsGrown, add_capacity-IsGrown, flat-append, IsChain-append, IsChain-take, IsChain-drop,
}
use net_ninja.ByteArray.Place.{contents, flat-split, div_add, IsPlaced, IsPlaced-of}

-- `c` is `b` with `buf` written at the position of `b`.
pub record IsWritten (b : ByteArray) (buf : List ℕ) (c : ByteArray) : Type 0 where
  pub valid : IsValid c
  pub position : c.position ≡ b.position + length buf
  pub marked : c.size ≡ max b.size (b.position + length buf)
  pub base : c.base_size ≡ b.base_size
  pub endian : c.endian ≡ b.endian
  pub bytes :
      contents c
      ≡ take b.position (contents b) ++ (buf ++ drop (b.position + length buf) (contents b))

-- The buffer after the loop of `write`.
finish_write : ByteArray → List Node × ℕ × ℕ → ByteArray
finish_write c (rest', cur', position') = record c {
  nodes = take c.cur c.nodes ++ rest';
  cur = cur';
  position = position';
  size = if ltb c.size position' then position' else c.size;
}

-- The loop at the position of a buffer with room changes the bytes from there on, and no others.
finish_write-flat :
    (c : ByteArray) (buf : List ℕ) (rest' : List Node)
    → IsPlaced c
    → flat rest' ≡ overwrite (flat (drop c.cur c.nodes)) (c.position % c.base_size) buf
    → flat (take c.cur c.nodes ++ rest') ≡ overwrite (flat c.nodes) c.position buf
finish_write-flat c buf rest' p bytes =
    flat-append (take c.cur c.nodes) rest'
    ∙ ap (◌++◌ (flat (take c.cur c.nodes))) bytes
    ∙ sym (
        overwrite-append_right (flat (take c.cur c.nodes)) (flat (drop c.cur c.nodes))
          (c.cur * c.base_size) (c.position % c.base_size) buf p.before)
    ∙ ap (λ (t : List ℕ). overwrite t (c.cur * c.base_size + c.position % c.base_size) buf)
        (sym (flat-split c.cur c.nodes))
    ∙ ap (λ (t : ℕ). overwrite (flat c.nodes) t buf) (sym p.offset)

-- `addCapacity` leaves the bytes as they are.
pub grown-contents : {n : ℕ} (b c : ByteArray) → IsValid b → IsGrown b n c → contents c ≡ contents b
grown-contents b c v g =
    let full : length (flat b.nodes) ≡ b.capacity =
      length-flat b.base_size b.nodes v.chain ∙ sym v.capacity in
    rw (g.marked, g.nodes, flat-append b.nodes g.more)
      (take-append_le b.size (flat b.nodes) (flat g.more) (omega (arith, full, v.room)))

finish_write-IsWritten :
    (b c : ByteArray) (buf : List ℕ) (rest' : List Node)
    → IsValid b
    → IsGrown b (length buf) c
    → IsChain c.base_size rest'
    → length rest' ≡ length (drop c.cur c.nodes)
    → flat rest' ≡ overwrite (flat (drop c.cur c.nodes)) (c.position % c.base_size) buf
    → IsWritten b buf (
        finish_write c (
          rest',
          c.cur + (c.position % c.base_size + length buf) / c.base_size,
          c.position + length buf,
        ))
unfolding finish_write
finish_write-IsWritten b c buf rest' v g chain len bytes =
    let p : IsPlaced c = IsPlaced-of c g.valid in
    let count : length (take c.cur c.nodes) + length (drop c.cur c.nodes) ≡ length c.nodes =
      omega (arith, length-take c.cur c.nodes, length-drop c.cur c.nodes) in
    let full : length (flat c.nodes) ≡ c.capacity =
      length-flat c.base_size c.nodes g.valid.chain ∙ sym g.valid.capacity in
    let moved : c.cur * c.base_size + (c.position % c.base_size + length buf)
        ≡ c.position + length buf =
      omega (arith, p.offset) in
    let marks : (if ltb c.size (c.position + length buf) then c.position + length buf else c.size)
        ≡ max b.size (b.position + length buf) =
      ground (arith, g.marked, g.position) in
    let same : take c.position (contents c) ++ (buf ++ drop (c.position + length buf) (contents c))
        ≡ take b.position (contents b) ++ (buf ++ drop (b.position + length buf) (contents b)) =
      cc (grown-contents b c v g) in
    record {
      valid = record {
        base_pos = g.valid.base_pos;
        chain =
            IsChain-append c.base_size (take c.cur c.nodes) rest'
              (IsChain-take c.base_size c.cur c.nodes g.valid.chain) chain;
        root =
            rw (length-append (take c.cur c.nodes) rest', len) (omega (arith, count, g.valid.root));
        capacity = rw (length-append (take c.cur c.nodes) rest', len, count) g.valid.capacity;
        cursor =
            sym (div_add c.base_size c.cur (c.position % c.base_size + length buf) g.valid.base_pos)
            ∙ ap (λ (t : ℕ). t / c.base_size) moved;
        within = ground arith;
        room = ground (arith, g.enough, g.valid.room);
      };
      position = ap (λ (t : ℕ). t + length buf) g.position;
      marked = marks;
      base = g.base;
      endian = g.endian;
      bytes = rw (finish_write-flat c buf rest' p bytes) (
          take-overwrite (flat c.nodes) c.position _ c.size buf (omega (arith, full, g.enough))
            (ground arith) g.valid.within
          ∙ same);
    }

-- On a valid buffer `write` never fails: it writes the block at the position and leaves the other
-- bytes.
pub write-IsWritten :
    (al : Allocator) (b : ByteArray) (buf : List ℕ)
    → IsValid b
    → (c : ByteArray) × (write al b buf ≡ ok c) × IsWritten b buf c
write-IsWritten al b [] v = (
  b,
  unfold write in refl,
  record {
    valid = v;
    position = omega arith;
    marked = omega (arith, v.within);
    base = refl;
    endian = refl;
    bytes = sym (
        ap (λ (t : ℕ). take b.position (contents b) ++ drop t (contents b)) {x = b.position + 0}
          {y = b.position} (omega arith)
        ∙ take-append-drop b.position (contents b));
  },
)
write-IsWritten al b (x ∷ xs) v =
    let buf : List ℕ = x ∷ xs in
    let c : ByteArray = add_capacity al b (length buf) in
    let g : IsGrown b (length buf) c = add_capacity-IsGrown al b (length buf) v in
    let p : IsPlaced c = IsPlaced-of c g.valid in
    let (rest', run, bytes, chain, len) =
      write_loop-flat c.base_size g.valid.base_pos (drop c.cur c.nodes) c.cur c.position
        (c.position % c.base_size) buf (IsChain-drop c.base_size c.cur c.nodes g.valid.chain)
        p.inside (omega arith) (omega (arith, p.after, g.enough)) in
    (
      finish_write c (
        rest',
        c.cur + (c.position % c.base_size + length buf) / c.base_size,
        c.position + length buf,
      ),
      unfold write finish_write in rw run refl,
      finish_write-IsWritten b c buf rest' v g chain len bytes,
    )
