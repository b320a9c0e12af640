-- ===== src/ByteArray/RoundTrip.antt =====
-- Blocks written and read back, on the view of the bytes ahead of the position.
use net_ninja.Common.{
  ℕ, ◌+◌, ◌-◌, ◌<◌, ◌≡◌, refl, sym, ap, ◌∙◌, List, ◌++◌, arith, length, take, drop, length-append,
  length-drop, take-append_le, drop-append_le, drop-append_add, drop-drop, take_all, drop_all,
  append_assoc, take-append_add, ok,
}
use net_ninja.ByteArray.{ByteArray, Allocator, write, read, set_position}
use net_ninja.ByteArray.Loop.{flat, length-flat}
use net_ninja.ByteArray.Invariant.{IsValid}
use net_ninja.ByteArray.Place.{contents, length_of-take}
use net_ninja.ByteArray.Contract.{IsWritten, write-IsWritten}
use net_ninja.ByteArray.Slices.{IsAdvanced, IsMoved, read-IsAdvanced, set_position-IsMoved}

-- What a reader has before it.
abbrev pub ahead : ByteArray → List ℕ
ahead b = drop b.position (contents b)

pub length-contents : (b : ByteArray) → IsValid b → length (contents b) ≡ b.size
length-contents b v =
    length_of-take b.size (flat b.nodes)
      (omega (arith, length-flat b.base_size b.nodes v.chain, v.capacity, v.room))

pub length-ahead : (b : ByteArray) → IsValid b → length (ahead b) ≡ b.size - b.position
length-ahead b v = omega (arith, length-drop b.position (contents b), length-contents b v)

drop-length_append {ℓ} : {A : Type ℓ} (xs ys : List A) → drop (length xs) (xs ++ ys) ≡ ys
drop-length_append xs ys =
    drop-append_le (length xs) xs ys (omega arith)
    ∙ ap (λ t. t ++ ys) (drop_all (length xs) xs (omega arith))

-- A read of what lies ahead returns it, and leaves what follows.
pub read-ahead :
    (b : ByteArray) (xs post : List ℕ)
    → IsValid b
    → ahead b ≡ xs ++ post
    → 0 < length xs
    → (c : ByteArray) × (read b (length xs) ≡ ok (xs, c))
      × IsAdvanced b (length xs) c
      × (ahead c ≡ post)
read-ahead b xs post v e h =
    let long : b.size - b.position ≡ length xs + length post =
      omega (arith, length-ahead b v, ap length e, length-append xs post) in
    let (c, run, m) =
      read-IsAdvanced b (length xs) v (omega (arith, v.within)) (omega (arith, v.room)) in
    (
      c,
      run
          ∙ ap (λ (t : List ℕ). ok (t, c))
              (ap (take (length xs)) e
                ∙ take-append_le (length xs) xs post (omega arith)
                ∙ take_all (length xs) xs (omega arith)),
      m,
      rw (m.bytes, m.position)
          (sym (drop-drop (length xs) b.position (contents b))
            ∙ ap (drop (length xs)) e
            ∙ drop-length_append xs post),
    )

-- Two blocks written one behind the other are one block.
pub IsWritten-append :
    (b c d : ByteArray) (xs ys : List ℕ)
    → IsValid b
    → IsWritten b xs c
    → IsWritten c ys d
    → IsWritten b (xs ++ ys) d
IsWritten-append b c d xs ys v p q =
    let old : List ℕ = take b.position (contents b) in
    let post : List ℕ = drop (b.position + length xs) (contents b) in
    let start : length old ≡ b.position =
      length_of-take b.position (contents b) (omega (arith, length-contents b v, v.within)) in
    let front : take c.position (contents c) ≡ old ++ xs =
      rw (p.position, p.bytes)
        (take-append_add b.position (length xs) old (xs ++ post) start
          ∙ ap (◌++◌ old) (
              take-append_le (length xs) xs post (omega arith)
              ∙ take_all (length xs) xs (omega arith))) in
    let back : drop (c.position + length ys) (contents c)
        ≡ drop (b.position + length (xs ++ ys)) (contents b) =
      rw (p.position, p.bytes)
        (ap (λ (t : ℕ). drop t (old ++ (xs ++ post))) {x = b.position + length xs + length ys}
            {y = b.position + (length xs + length ys)} (omega arith)
          ∙ drop-append_add b.position (length xs + length ys) old (xs ++ post) start
          ∙ drop-append_add (length xs) (length ys) xs post refl
          ∙ drop-drop (length ys) (b.position + length xs) (contents b)
          ∙ ap (λ (t : ℕ). drop t (contents b)) {x = b.position + length xs + length ys}
              {y = b.position + length (xs ++ ys)} (omega (arith, length-append xs ys))) in
    record {
      valid = q.valid;
      position = omega (arith, q.position, p.position, length-append xs ys);
      marked = omega (arith, q.marked, p.marked, p.position, length-append xs ys);
      base = q.base ∙ p.base;
      endian = q.endian ∙ p.endian;
      bytes =
          q.bytes
          ∙ rw (front, back) (append_assoc old xs _ ∙ ap (◌++◌ old) (sym (append_assoc xs ys _)));
    }

-- The position set back to the start of a block that was written: the block lies ahead.
pub rewind-ahead :
    (b c : ByteArray) (buf : List ℕ)
    → IsValid b
    → IsWritten b buf c
    → (d : ByteArray) × (post : List ℕ) × (set_position c b.position ≡ ok d)
      × IsMoved c b.position d
      × (ahead d ≡ buf ++ post)
      × (contents d ≡ contents c)
rewind-ahead b c buf v w =
    let (d, back, m) =
      set_position-IsMoved c b.position w.valid
        (omega (arith, w.valid.within, w.valid.room, w.position)) in
    let same : contents d ≡ contents c =
      sym
        (take_all c.size (contents d) (omega (arith, length-contents d m.valid, m.size, w.marked)))
      ∙ m.old_bytes in
    let start : length (take b.position (contents b)) ≡ b.position =
      length_of-take b.position (contents b) (omega (arith, length-contents b v, v.within)) in
    let post : List ℕ = drop (b.position + length buf) (contents b) in
    (
      d,
      post,
      back,
      m,
      rw (m.position, same, w.bytes)
          (ap (λ (t : ℕ). drop t (take b.position (contents b) ++ (buf ++ post))) (sym start)
            ∙ drop-length_append (take b.position (contents b)) (buf ++ post)),
      same,
    )

-- A nonempty block that is written to a valid buffer can be read back from where it was written.
pub read-write :
    (al : Allocator) (b : ByteArray) (buf : List ℕ)
    → IsValid b
    → 0 < length buf
    → (c : ByteArray) × (d : ByteArray) × (e : ByteArray) × (write al b buf ≡ ok c)
      × (set_position c b.position ≡ ok d)
      × (read d (length buf) ≡ ok (buf, e))
      × (e.position ≡ c.position)
      × (contents e ≡ contents c)
read-write al b buf v h =
    let (c, run, w) = write-IsWritten al b buf v in
    let (d, post, back, m, e, same) = rewind-ahead b c buf v w in
    let (f, got, adv, left) = read-ahead d buf post m.valid e h in
    (c, d, f, run, back, got, omega (arith, adv.position, m.position, w.position), adv.bytes ∙ same)
