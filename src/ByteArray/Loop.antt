-- ===== src/ByteArray/Loop.antt =====
-- The loops that walk the chain of nodes, seen through the bytes that the chain holds.
use net_ninja.Common.{
  ℕ, suc, ◌+◌, ◌-◌, ◌*◌, ◌/◌, ◌≤◌, ◌<◌, ◌≡◌, refl, sym, ap, ◌∙◌, List, [], ◌∷◌, ◌++◌, arith, ◌==◌,
  if◌then◌else◌, le→leb, lt→leb, length, take, drop, overwrite, All, length-append, length-drop,
  length-overwrite, overwrite-append, drop-append_le, take-append_le, take-append_over, le→ltb,
  lt→ltb, overwrite-append_left, ok,
}
use native.Mathlib.Decide.{dec_le}
use net_ninja.ByteArray.{Node, copy_in, write_loop, read_loop, seek}

-- All bytes of the chain, in order.
abbrev pub flat : List Node → List ℕ
flat [] = []
flat (n ∷ rest) = n.ptr ++ flat rest

abbrev pub IsNode : ℕ → Node → Type 0
IsNode base n = (n.size ≡ base) × (length n.ptr ≡ base)

abbrev pub IsChain : ℕ → List Node → Type 0
IsChain base = All (IsNode base)

pub length-flat :
    (base : ℕ) (nodes : List Node) → IsChain base nodes → length (flat nodes) ≡ length nodes * base
length-flat base [] h = omega arith
length-flat base (n ∷ rest) h =
    omega (arith, length-append n.ptr (flat rest), length-flat base rest h.1)

pub div_below : (base x : ℕ) → x < base → x / base ≡ 0
div_below base x h = grind arith

pub div_step : (base x : ℕ) → 0 < base → (base + x) / base ≡ x / base + 1
div_step base x h = grind arith

-- The index of the node after `npos + size` bytes, for the two ways that a round ends.
last_cursor :
    (base npos size cur : ℕ)
    → npos + size ≤ base
    → 0 < base
    → (if base == npos + size then cur + 1 else cur) ≡ cur + (npos + size) / base
last_cursor base npos size cur h pos =
    ground (arith, div_below base (npos + size), div_step base 0 pos, div_below base 0)

more_cursor :
    (base npos size cur : ℕ)
    → npos < base
    → base ≤ npos + size
    → cur + 1 + (0 + (size - (base - npos))) / base ≡ cur + (npos + size) / base
more_cursor base npos size cur h l =
    let e : npos + size ≡ base + (0 + (size - (base - npos))) = omega arith in
    omega
      (arith, ap (λ (t : ℕ). t / base) e, div_step base (0 + (size - (base - npos))) (omega arith))

module _ (base : ℕ) (base_pos : 0 < base) where
  abbrev pub Writes : List Node → ℕ → ℕ → ℕ → List ℕ → Type 0
  Writes nodes cur position npos buf =
      (nodes' : List Node) × (write_loop nodes cur position npos buf
        ≡ ok (nodes', cur + (npos + length buf) / base, position + length buf))
      × (flat nodes' ≡ overwrite (flat nodes) npos buf)
      × IsChain base nodes'
      × (length nodes' ≡ length nodes)

  write_loop_last :
      (n : Node) (rest : List Node) (cur position npos : ℕ) (buf : List ℕ)
      → IsChain base (n ∷ rest)
      → npos + length buf ≤ base
      → Writes (n ∷ rest) cur position npos buf
  unfolding write_loop
  write_loop_last n rest cur position npos buf chain h = (
    copy_in n npos buf ∷ rest,
    rw
        (
          chain.0.0,
          le→leb (length buf) (base - npos) (omega arith),
          last_cursor base npos (length buf) cur h base_pos,
        )
        refl,
    sym (overwrite-append_left n.ptr (flat rest) npos buf (omega arith)),
    ((chain.0.0, length-overwrite n.ptr npos buf ∙ chain.0.1), chain.1),
    refl,
  )

  write_loop_more :
      (n : Node) (rest : List Node) (cur position npos : ℕ) (buf : List ℕ)
      → IsChain base (n ∷ rest)
      → npos < base
      → base < npos + length buf
      → Writes rest (cur + 1) (position + (base - npos)) 0 (drop (base - npos) buf)
      → Writes (n ∷ rest) cur position npos buf
  unfolding write_loop
  write_loop_more n rest cur position npos buf chain h over (nodes', run, bytes, chain', len) = (
    copy_in n npos (take (base - npos) buf) ∷ nodes',
    rw
        (
          chain.0.0,
          lt→leb (length buf) (base - npos) (omega arith),
          run,
          length-drop,
          more_cursor base npos (length buf) cur h (omega arith),
        )
        (ground arith),
    rw bytes (sym (overwrite-append n.ptr (flat rest) npos (base - npos) buf (omega arith))),
    ((chain.0.0, length-overwrite n.ptr npos _ ∙ chain.0.1), chain'),
    ap suc len,
  )

  pub write_loop-flat :
      (nodes : List Node) (cur position npos : ℕ) (buf : List ℕ)
      → IsChain base nodes
      → npos < base
      → 0 < length buf
      → npos + length buf ≤ length nodes * base
      → Writes nodes cur position npos buf
  write_loop-flat [] cur position npos buf chain h pos fits = absurd (omega arith)
  write_loop-flat (n ∷ rest) cur position npos buf chain h pos fits =
      elim (dec_le (npos + length buf) base) [
        | yes inside ↦ write_loop_last n rest cur position npos buf chain inside
        | no outside ↦ write_loop_more n rest cur position npos buf chain h (omega arith) (
            write_loop-flat rest (cur + 1) (position + (base - npos)) 0 (drop (base - npos) buf)
              chain.1 base_pos (omega (arith, length-drop (base - npos) buf))
              (omega (arith, length-drop (base - npos) buf)))
      ]

  abbrev pub Reads : List Node → ℕ → ℕ → ℕ → ℕ → Type 0
  Reads nodes cur position npos size =
      read_loop nodes cur position npos size
      ≡ ok (take size (drop npos (flat nodes)), cur + (npos + size) / base, position + size)

  read_loop_last :
      (n : Node) (rest : List Node) (cur position npos size : ℕ)
      → IsChain base (n ∷ rest)
      → npos + size ≤ base
      → Reads (n ∷ rest) cur position npos size
  unfolding read_loop
  read_loop_last n rest cur position npos size chain h =
      rw
        (
          chain.0.0,
          le→leb size (base - npos) (omega arith),
          last_cursor base npos size cur h base_pos,
          drop-append_le npos n.ptr (flat rest) (omega arith),
          take-append_le size (drop npos n.ptr) (flat rest) (omega (arith, length-drop npos n.ptr)),
        )
        refl

  read_loop_more :
      (n : Node) (rest : List Node) (cur position npos size : ℕ)
      → IsChain base (n ∷ rest)
      → npos < base
      → base < npos + size
      → Reads rest (cur + 1) (position + (base - npos)) 0 (size - (base - npos))
      → Reads (n ∷ rest) cur position npos size
  unfolding read_loop
  read_loop_more n rest cur position npos size chain h over run =
      rw
        (
          chain.0.0,
          lt→leb size (base - npos) (omega arith),
          run,
          more_cursor base npos size cur h (omega arith),
          drop-append_le npos n.ptr (flat rest) (omega arith),
          take-append_over (base - npos) size (drop npos n.ptr) (flat rest)
              (omega (arith, length-drop npos n.ptr)) (omega arith),
        )
        (ground arith)

  pub read_loop-flat :
      (nodes : List Node) (cur position npos size : ℕ)
      → IsChain base nodes
      → npos < base
      → 0 < size
      → npos + size ≤ length nodes * base
      → Reads nodes cur position npos size
  read_loop-flat [] cur position npos size chain h pos fits = absurd (omega arith)
  read_loop-flat (n ∷ rest) cur position npos size chain h pos fits =
      elim (dec_le (npos + size) base) [
        | yes inside ↦ read_loop_last n rest cur position npos size chain inside
        | no outside ↦ read_loop_more n rest cur position npos size chain h (omega arith) (
            read_loop-flat rest (cur + 1) (position + (base - npos)) 0 (size - (base - npos))
              chain.1 base_pos (omega arith) (omega arith))
      ]

  -- `setPosition` ends at the node of the position, or behind the last one.
  pub seek-div :
      (nodes : List Node) (cur v : ℕ)
      → IsChain base nodes
      → 0 < length nodes
      → v ≤ length nodes * base
      → seek nodes cur v ≡ ok (cur + v / base)
  unfolding seek
  seek-div [] cur v chain pos h = absurd (omega arith)
  seek-div (n ∷ rest) cur v chain pos h = elim (dec_le v base) [
    | yes inside ↦
        rw (chain.0.0, le→ltb base v inside)
          (ground (arith, div_below base v, div_step base 0 base_pos, div_below base 0))
    | no outside ↦
        rw
          (
            chain.0.0,
            lt→ltb base v (omega arith),
            seek-div rest (cur + 1) (v - base) chain.1 (ground arith) (omega arith),
          )
          (ground (arith, div_step base (v - base)))
  ]
