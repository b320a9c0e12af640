-- ===== src/Codec/Text.antt =====
-- writeStringF16 to writeStringVint: a length and the bytes.
use native.Mathlib.Nat.{mod-eq_of_lt}
use net_ninja.Common.{
  ℕ, ◌+◌, ◌^◌, ◌<◌, ◌≡◌, refl, ◌∙◌, List, ◌++◌, arith, length, append_assoc, Outcome, ok, fault,
  ◌>>=◌,
}
use net_ninja.ByteArray.{ByteArray, Endian, Allocator, write, set_position}
use net_ninja.ByteArray.Invariant.{IsValid}
use net_ninja.ByteArray.Place.{contents}
use net_ninja.ByteArray.Contract.{IsWritten, write-IsWritten}
use net_ninja.ByteArray.Slices.{IsAdvanced, IsAdvanced-trans, read_empty_at_end}
use net_ninja.ByteArray.RoundTrip.{ahead, read-ahead, rewind-ahead, IsWritten-append}
use net_ninja.Codec.{
  memory, write_fixed, read_fixed, read_uint64, read_counted, write_string_f16, write_string_f32,
  write_string_f64, write_string_vint, read_string_f16, read_string_f32, read_string_f64,
  read_string_vint, write_fuint16, write_fuint32, write_fuint64, read_fuint16, read_fuint32,
  read_fuint64,
}
use net_ninja.Codec.Fixed.{length-memory, write_fixed-IsWritten, read_fixed-ahead}
use net_ninja.Codec.Varint.{write_uint64-IsWritten, read_uint64-ahead}

-- A writer and a reader of texts at one buffer: the text comes back, from where it was written.
abbrev pub TextRoundTrip :
    (ByteArray → List ℕ → Outcome ByteArray)
    → (ByteArray → Outcome (List ℕ × ByteArray))
    → ByteArray
    → List ℕ
    → Type 0
TextRoundTrip put get b value =
    (c : ByteArray) × (d : ByteArray) × (e : ByteArray) × (put b value ≡ ok c)
    × (set_position c b.position ≡ ok d)
    × (get d ≡ ok (value, e))
    × (e.position ≡ c.position)
    × (contents e ≡ contents c)

-- The bytes of a text behind its length.
counted :
    (b c : ByteArray) (n : ℕ) (value post : List ℕ) (len : Outcome (ℕ × ByteArray))
    → 0 < length value
    → len ≡ ok (length value, c)
    → IsAdvanced b n c
    → ahead c ≡ value ++ post
    → (e : ByteArray) × (read_counted len ≡ ok (value, e)) × IsAdvanced b (n + length value) e
unfolding read_counted
counted b c n value post len pos run adv e =
    let (d, got, adv', left) = read-ahead c value post adv.valid e pos in
    (d, rw run got, IsAdvanced-trans (n + length value) adv adv' refl)

fixed_text :
    (al : Allocator) (writer reader : Endian) (b : ByteArray) (k : ℕ) (value : List ℕ)
    → IsValid b
    → 0 < k
    → 0 < length value
    → length value < 256 ^ k
    → TextRoundTrip
        (λ b value. write_fixed al writer k b (length value) >>= λ c. write al c value)
        (λ b. read_counted (read_fixed reader k b))
        b
        value
fixed_text al writer reader b k value valid kpos pos h =
    let head : List ℕ = memory b.endian k (length value) in
    let (c, run, w) = write_fixed-IsWritten al writer b k (length value) valid in
    let (c', run', w') = write-IsWritten al c value w.valid in
    let whole : IsWritten b (head ++ value) c' = IsWritten-append b c c' head value valid w w' in
    let (d, post, back, m, e, same) = rewind-ahead b c' (head ++ value) valid whole in
    let order : d.endian ≡ b.endian = m.endian ∙ w'.endian ∙ w.endian in
    let front : ahead d ≡ memory d.endian k (length value) ++ (value ++ post) =
      rw order (e ∙ append_assoc head value post) in
    let (f, got, adv, left) =
      read_fixed-ahead reader d k (length value) (value ++ post) m.valid kpos h front in
    let (g, text, adv') = counted d f k value post (read_fixed reader k d) pos got adv left in
    (
      c',
      d,
      g,
      rw run run',
      back,
      text,
      omega (
        arith,
        adv'.position,
        m.position,
        w'.position,
        w.position,
        length-memory b.endian k (length value),
      ),
      adv'.bytes ∙ same,
    )

-- A nonempty text whose length fits a uint16_t, written to a valid buffer by `writeStringF16` on
-- one machine, is what `readStringF16` on another reads from the same place; it ends where the
-- writer ended.
pub read-write_string_f16 :
    (al : Allocator) (writer reader : Endian) (b : ByteArray) (value : List ℕ)
    → IsValid b
    → 0 < length value
    → length value < 2 ^ 16
    → TextRoundTrip (write_string_f16 al writer) (read_string_f16 reader) b value
unfolding write_string_f16 read_string_f16 write_fuint16 read_fuint16
read-write_string_f16 al writer reader b value valid pos h =
    rw (mod-eq_of_lt h) (fixed_text al writer reader b 2 value valid (omega arith) pos h)

-- The same for `writeStringF32`, up to the lengths of a uint32_t.
pub read-write_string_f32 :
    (al : Allocator) (writer reader : Endian) (b : ByteArray) (value : List ℕ)
    → IsValid b
    → 0 < length value
    → length value < 2 ^ 32
    → TextRoundTrip (write_string_f32 al writer) (read_string_f32 reader) b value
unfolding write_string_f32 read_string_f32 write_fuint32 read_fuint32
read-write_string_f32 al writer reader b value valid pos h =
    rw (mod-eq_of_lt h) (fixed_text al writer reader b 4 value valid (omega arith) pos h)

-- The same for `writeStringF64`, up to the lengths of a uint64_t.
pub read-write_string_f64 :
    (al : Allocator) (writer reader : Endian) (b : ByteArray) (value : List ℕ)
    → IsValid b
    → 0 < length value
    → length value < 2 ^ 64
    → TextRoundTrip (write_string_f64 al writer) (read_string_f64 reader) b value
unfolding write_string_f64 read_string_f64 write_fuint64 read_fuint64
read-write_string_f64 al writer reader b value valid pos h =
    fixed_text al writer reader b 8 value valid (omega arith) pos h

-- A nonempty text whose length fits a uint64_t, written to a valid buffer by `writeStringVint`, is
-- what `readStringVint` reads from the same place.
pub read-write_string_vint :
    (al : Allocator) (b : ByteArray) (value : List ℕ)
    → IsValid b
    → 0 < length value
    → length value < 2 ^ 64
    → TextRoundTrip (write_string_vint al) read_string_vint b value
unfolding write_string_vint read_string_vint
read-write_string_vint al b value valid pos h =
    let (gs, c, run, w, short, r) = write_uint64-IsWritten al b (length value) valid h in
    let (c', run', w') = write-IsWritten al c value w.valid in
    let whole : IsWritten b (gs ++ value) c' = IsWritten-append b c c' gs value valid w w' in
    let (d, post, back, m, e, same) = rewind-ahead b c' (gs ++ value) valid whole in
    let (f, got, adv, left) =
      read_uint64-ahead d (length value) gs (value ++ post) m.valid h r
        (e ∙ append_assoc gs value post) in
    let (g, text, adv') = counted d f (length gs) value post (read_uint64 d) pos got adv left in
    (
      c',
      d,
      g,
      rw run run',
      back,
      text,
      omega (arith, adv'.position, m.position, w'.position, w.position),
      adv'.bytes ∙ same,
    )

-- An empty text cannot be read back where its length fills the last node: `m_cur` is null there.
pub read_string_empty_at_end :
    (host : Endian) (b c : ByteArray)
    → IsValid c
    → c.position ≡ c.capacity
    → read_fuint16 host b ≡ ok (0, c)
    → read_string_f16 host b ≡ fault
unfolding read_string_f16 read_counted
read_string_empty_at_end host b c v last len = rw len (read_empty_at_end c v last)
