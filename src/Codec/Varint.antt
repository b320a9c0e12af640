-- ===== src/Codec/Varint.antt =====
-- writeUint32 and writeUint64: the groups of seven bits fit `tmp`, and the reads take them back.
use Prim.Native.Nat.{bit_and, bit_or}
use native.Mathlib.Decide.{dec_lt}
use native.Mathlib.Nat.{pow-suc, div-add-mod, mod-eq_of_lt}
use native.Mathlib.Numerals.{towards_suc}
use net_ninja.Common.{
  ℕ, zero, suc, ◌+◌, ◌*◌, ◌/◌, ◌%◌, ◌^◌, ◌≤◌, ◌<◌, ◌≡◌, refl, ap, ◌∙◌, List, [], ◌∷◌, ◌++◌, arith,
  length, ok, lt→leb, le→leb, lt→ltb, le→ltb,
}
use net_ninja.Common.Bits.{bit_and_mask, bit_or_fields}
use net_ninja.ByteArray.{ByteArray, Allocator, set_position}
use net_ninja.ByteArray.Invariant.{IsValid}
use net_ninja.ByteArray.Place.{contents}
use net_ninja.ByteArray.Contract.{write-IsWritten, IsWritten}
use net_ninja.ByteArray.Slices.{IsAdvanced, IsAdvanced-trans}
use net_ninja.ByteArray.RoundTrip.{ahead, read-ahead, rewind-ahead}
use net_ninja.Codec.{
  more_group, put_groups, read_fuint8, read_groups, write_uint32, read_uint32, write_uint64,
  read_uint64,
}

more_group-eq : (v : ℕ) → more_group v ≡ v % 128 + 128
unfolding more_group
more_group-eq v = rw (bit_and_mask 7 v, bit_or_fields 7 (v % 128) 1 (omega arith)) (omega arith)

read_fuint8-ahead :
    (b : ByteArray) (x : ℕ) (post : List ℕ)
    → IsValid b
    → ahead b ≡ x ∷ post
    → (c : ByteArray) × (read_fuint8 b ≡ ok (x, c)) × IsAdvanced b 1 c × (ahead c ≡ post)
unfolding read_fuint8
read_fuint8-ahead b x post v e =
    let (c, run, adv, left) = read-ahead b (x ∷ []) post v e (omega arith) in
    (c, rw run (ap (λ (t : ℕ). ok (t, c)) (omega arith)), adv, left)

-- The reader's part of the round trip, for the groups of one value.
abbrev pub Readable : ℕ → ℕ → List ℕ → Type 0
Readable room v gs =
    (w rounds shift result : ℕ) (b : ByteArray) (post : List ℕ)
    → room ≤ rounds
    → IsValid b
    → ahead b ≡ gs ++ post
    → result < 2 ^ shift
    → result + v * 2 ^ shift < 2 ^ w
    → (c : ByteArray) × (read_groups w rounds shift result b ≡ ok (result + v * 2 ^ shift, c))
      × IsAdvanced b (length gs) c
      × (ahead c ≡ post)

group_below : (v shift w result : ℕ) → result + v * 2 ^ shift < 2 ^ w → v * 2 ^ shift < 2 ^ w
group_below v shift w result h = omega arith

last_group : (room v : ℕ) → v < 128 → Readable (suc room) v (v ∷ [])
unfolding read_groups
last_group room v small w zero shift result b post h valid e low fits = absurd (omega arith)
last_group room v small w (suc rounds) shift result b post h valid e low fits =
    let (c, run, adv, left) = read_fuint8-ahead b v post valid e in
    (
      c,
      rw
          (
            run,
            lt→ltb v 0x80 small,
            mod-eq_of_lt (group_below v shift w result fits),
            bit_or_fields shift result v low,
          )
          refl,
      adv,
      left,
    )

pow_seven : (s : ℕ) → 2 ^ (s + 7) ≡ 128 * 2 ^ s
pow_seven s = simp towards_suc (omega arith)

low_fits : (a g p : ℕ) → a < p → g < 128 → a + g * p < 128 * p
low_fits a g p h l = grind arith

-- The lowest group of a value and the rest, both shifted by `s`.
split_groups : (v s : ℕ) → v * 2 ^ s ≡ v % 128 * 2 ^ s + v / 128 * 2 ^ (s + 7)
split_groups v s = omega (
  arith,
  ap (λ (t : ℕ). t * 2 ^ s) (div-add-mod v 128),
  ap (λ (t : ℕ). v / 128 * t) (pow_seven s),
)

-- One round of the reader on a byte with the top bit set.
inner_result :
    (v w shift result : ℕ)
    → result < 2 ^ shift
    → result + v * 2 ^ shift < 2 ^ w
    → bit_or result (bit_and (v % 128 + 128) 0x7f * 2 ^ shift % 2 ^ w)
      ≡ result + v % 128 * 2 ^ shift
inner_result v w shift result low fits =
    let small : v % 128 * 2 ^ shift < 2 ^ w = omega (arith, split_groups v shift) in
    let mask : bit_and (v % 128 + 128) 0x7f ≡ v % 128 =
      bit_and_mask 7 (v % 128 + 128) ∙ omega arith in
    rw (mask, mod-eq_of_lt small) (bit_or_fields shift result (v % 128) low)

inner_group :
    (room v : ℕ) (gs : List ℕ)
    → Readable room (v / 128) gs
    → Readable (suc room) v ((v % 128 + 128) ∷ gs)
unfolding read_groups
inner_group room v gs r w zero shift result b post h valid e low fits = absurd (omega arith)
inner_group room v gs r w (suc rounds) shift result b post h valid e low fits =
    let (c, run, adv, left) = read_fuint8-ahead b (v % 128 + 128) (gs ++ post) valid e in
    let result' : ℕ = result + v % 128 * 2 ^ shift in
    let same : result' + v / 128 * 2 ^ (shift + 7) ≡ result + v * 2 ^ shift =
      omega (arith, split_groups v shift) in
    let room_left : result' < 2 ^ (shift + 7) =
      omega (arith, low_fits result (v % 128) (2 ^ shift) low (omega arith), pow_seven shift) in
    let (d, rest, adv', left') =
      r w rounds (shift + 7) result' c post (omega arith) adv.valid left room_left (rw same fits) in
    (
      d,
      rw (run, le→ltb (v % 128 + 128) 0x80 (omega arith), inner_result v w shift result low fits)
          (rest ∙ ap (λ (t : ℕ). ok (t, d)) same),
      IsAdvanced-trans (suc (length gs)) adv adv' (omega arith),
      left',
    )

-- A value of at most `suc room` groups fits a buffer of `suc room` bytes, and is readable.
pub put_groups-Readable :
    (room v : ℕ)
    → v < 128 ^ suc room
    → (gs : List ℕ) × (put_groups (suc room) v ≡ ok gs)
      × (0 < length gs)
      × (length gs ≤ suc room)
      × Readable (suc room) v gs
unfolding put_groups
put_groups-Readable zero v h = (
  v ∷ [],
  rw (lt→leb 0x80 v (omega arith)) (ground arith),
  omega arith,
  omega arith,
  last_group 0 v (omega arith),
)
put_groups-Readable (suc room) v h = elim (dec_lt v 0x80) [
  | yes small ↦ (
    v ∷ [],
    rw (lt→leb 0x80 v small) (ground arith),
    omega arith,
    omega arith,
    last_group (suc room) v small,
  )
  | no large ↦
      let (gs, run, pos, short, r) =
        put_groups-Readable room (v / 128) (omega (arith, pow-suc 128 (suc room))) in
      (
        (v % 128 + 128) ∷ gs,
        rw (le→leb 0x80 v (omega arith), run, more_group-eq v) refl,
        omega arith,
        omega arith,
        inner_group (suc room) v gs r,
      )
]

-- A uint64_t always fits the ten bytes of `tmp`, and what is written is readable.
pub write_uint64-IsWritten :
    (al : Allocator) (b : ByteArray) (v : ℕ)
    → IsValid b
    → v < 2 ^ 64
    → (gs : List ℕ) × (c : ByteArray) × (write_uint64 al b v ≡ ok c)
      × IsWritten b gs c
      × (length gs ≤ 10)
      × Readable 10 v gs
unfolding write_uint64
write_uint64-IsWritten al b v valid h =
    let (gs, groups, pos, short, r) = put_groups-Readable 9 v (omega arith) in
    let (c, run, w) = write-IsWritten al b gs valid in (gs, c, rw groups run, w, short, r)

pub read_uint64-ahead :
    (b : ByteArray) (v : ℕ) (gs post : List ℕ)
    → IsValid b
    → v < 2 ^ 64
    → Readable 10 v gs
    → ahead b ≡ gs ++ post
    → (c : ByteArray) × (read_uint64 b ≡ ok (v, c)) × IsAdvanced b (length gs) c × (ahead c ≡ post)
unfolding read_uint64
read_uint64-ahead b v gs post valid h r e =
    let (c, run, adv, left) =
      r 64 10 0 0 b post (omega arith) valid e (omega arith) (omega arith) in
    (c, run ∙ ap (λ (t : ℕ). ok (t, c)) (omega arith), adv, left)

-- A uint32_t always fits the five bytes of `tmp`, and what is written of it to a valid buffer is
-- read back from where it was written.
pub read-write_uint32 :
    (al : Allocator) (b : ByteArray) (v : ℕ)
    → IsValid b
    → v < 2 ^ 32
    → (c : ByteArray) × (d : ByteArray) × (e : ByteArray) × (write_uint32 al b v ≡ ok c)
      × (set_position c b.position ≡ ok d)
      × (read_uint32 d ≡ ok (v, e))
      × (c.position ≤ b.position + 5)
      × (e.position ≡ c.position)
      × (contents e ≡ contents c)
unfolding write_uint32 read_uint32
read-write_uint32 al b v valid h =
    let (gs, groups, pos, short, r) = put_groups-Readable 4 v (omega arith) in
    let (c, run, w) = write-IsWritten al b gs valid in
    let (d, post, back, m, e, same) = rewind-ahead b c gs valid w in
    let (f, got, adv, left) =
      r 32 5 0 0 d post (omega arith) m.valid e (omega arith) (omega arith) in
    (
      c,
      d,
      f,
      rw groups run,
      back,
      got ∙ ap (λ (t : ℕ). ok (t, f)) (omega arith),
      omega (arith, w.position),
      omega (arith, adv.position, m.position, w.position),
      adv.bytes ∙ same,
    )

-- A uint64_t always fits the ten bytes of `tmp`, and what is written of it to a valid buffer is
-- read back from where it was written.
pub read-write_uint64 :
    (al : Allocator) (b : ByteArray) (v : ℕ)
    → IsValid b
    → v < 2 ^ 64
    → (c : ByteArray) × (d : ByteArray) × (e : ByteArray) × (write_uint64 al b v ≡ ok c)
      × (set_position c b.position ≡ ok d)
      × (read_uint64 d ≡ ok (v, e))
      × (c.position ≤ b.position + 10)
      × (e.position ≡ c.position)
      × (contents e ≡ contents c)
read-write_uint64 al b v valid h =
    let (gs, c, run, w, short, r) = write_uint64-IsWritten al b v valid h in
    let (d, post, back, m, e, same) = rewind-ahead b c gs valid w in
    let (f, got, adv, left) = read_uint64-ahead d v gs post m.valid h r e in
    (
      c,
      d,
      f,
      run,
      back,
      got,
      omega (arith, w.position),
      omega (arith, adv.position, m.position, w.position),
      adv.bytes ∙ same,
    )
