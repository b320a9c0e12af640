-- ===== src/Codec/Fixed.antt =====
-- writeFint16 to writeFuint64 and their reads: the byte order on the wire, and the round trip
-- between machines.
use mathlib.Core.List.{reverse, reverse-cons, reverse-reverse}
use net_ninja.Common.{
  ℕ, zero, suc, ◌+◌, ◌*◌, ◌/◌, ◌%◌, ◌^◌, ◌<◌, ◌≡◌, refl, ap, ◌∙◌, Bool, true, false, not, List, [],
  ◌∷◌, ◌++◌, arith, length, length-append, All, ok, if◌then◌else◌,
}
use net_ninja.ByteArray.{
  ByteArray, Endian, little, big, Allocator, set_position, is_little_endian, set_is_little_endian,
}
use net_ninja.ByteArray.Invariant.{IsValid}
use net_ninja.ByteArray.Place.{contents}
use net_ninja.ByteArray.RoundTrip.{ahead, read-ahead, rewind-ahead}
use mathlib.Core.Path.{ap₂}
use native.Mathlib.Nat.{pow-suc}
use net_ninja.ByteArray.Contract.{IsWritten, write-IsWritten}
use net_ninja.ByteArray.Slices.{IsAdvanced}
use net_ninja.Codec.{
  to_bytes, of_bytes, byteswap, differs, memory, of_memory, write_fixed, read_fixed,
}

abbrev pub IsByte : ℕ → Type 0
IsByte x = x < 256

pub length-to_bytes : (k v : ℕ) → length (to_bytes k v) ≡ k
unfolding to_bytes
length-to_bytes zero v = refl
length-to_bytes (suc k) v = ap suc (length-to_bytes k (v / 256))

pub to_bytes-IsByte : (k v : ℕ) → All IsByte (to_bytes k v)
unfolding to_bytes
to_bytes-IsByte zero v = tt
to_bytes-IsByte (suc k) v = (omega arith, to_bytes-IsByte k (v / 256))

pub of_bytes-to_bytes : (k v : ℕ) → v < 256 ^ k → of_bytes (to_bytes k v) ≡ v
unfolding to_bytes of_bytes
of_bytes-to_bytes zero v h = omega arith
of_bytes-to_bytes (suc k) v h =
    omega (arith, of_bytes-to_bytes k (v / 256) (omega (arith, pow-suc 256 k)))

to_bytes-of_bytes :
    (k : ℕ) (xs : List ℕ) → All IsByte xs → length xs ≡ k → to_bytes k (of_bytes xs) ≡ xs
unfolding to_bytes of_bytes
to_bytes-of_bytes zero [] h e = refl
to_bytes-of_bytes zero (x ∷ xs) h e = absurd (omega arith)
to_bytes-of_bytes (suc k) [] h e = absurd (omega arith)
to_bytes-of_bytes (suc k) (x ∷ xs) h e = ap₂ ◌∷◌ {x = (x + 256 * of_bytes xs) % 256} (omega arith) (
    ap (to_bytes k) {x = (x + 256 * of_bytes xs) / 256} {y = of_bytes xs} (omega arith)
    ∙ to_bytes-of_bytes k xs h.1 (omega arith))

IsByte-append : (xs ys : List ℕ) → All IsByte xs → All IsByte ys → All IsByte (xs ++ ys)
IsByte-append [] ys h k = k
IsByte-append (x ∷ xs) ys h k = (h.0, IsByte-append xs ys h.1 k)

IsByte-reverse : (xs : List ℕ) → All IsByte xs → All IsByte (reverse xs)
IsByte-reverse [] h = tt
IsByte-reverse (x ∷ xs) h =
    rw (reverse-cons x xs) (IsByte-append (reverse xs) (x ∷ []) (IsByte-reverse xs h.1) (h.0, tt))

length-reverse : (xs : List ℕ) → length (reverse xs) ≡ length xs
length-reverse [] = refl
length-reverse (x ∷ xs) =
    rw (reverse-cons x xs, length-append (reverse xs) (x ∷ [])) (omega (arith, length-reverse xs))

-- The swapped value has the bytes of the value in the other order.
to_bytes-byteswap : (k v : ℕ) → to_bytes k (byteswap k v) ≡ reverse (to_bytes k v)
unfolding byteswap
to_bytes-byteswap k v =
    to_bytes-of_bytes k (reverse (to_bytes k v))
      (IsByte-reverse (to_bytes k v) (to_bytes-IsByte k v))
      (length-reverse (to_bytes k v) ∙ length-to_bytes k v)

-- Swapping the bytes of a value of `k` bytes twice gives the value back.
pub byteswap_twice : (k v : ℕ) → v < 256 ^ k → byteswap k (byteswap k v) ≡ v
unfolding byteswap
byteswap_twice k v h =
    ap (λ (t : List ℕ). of_bytes (reverse t)) (to_bytes-byteswap k v)
    ∙ ap of_bytes (reverse-reverse (to_bytes k v))
    ∙ of_bytes-to_bytes k v h

-- What is written depends on the order chosen for the buffer, and not on the machine.
pub memory-wire :
    (host e : Endian) (k v : ℕ)
    → memory host k (if differs e host then byteswap k v else v) ≡ memory e k v
unfolding differs memory
memory-wire little little k v = refl
memory-wire little big k v = to_bytes-byteswap k v
memory-wire big little k v = ap reverse (to_bytes-byteswap k v) ∙ reverse-reverse (to_bytes k v)
memory-wire big big k v = refl

of_memory-memory :
    (host e : Endian) (k v : ℕ)
    → v < 256 ^ k
    → (if differs e host
        then byteswap k (of_memory host (memory e k v))
        else of_memory host (memory e k v))
      ≡ v
unfolding differs memory of_memory byteswap
of_memory-memory little little k v h = of_bytes-to_bytes k v h
of_memory-memory little big k v h = byteswap_twice k v h
of_memory-memory big little k v h = byteswap_twice k v h
of_memory-memory big big k v h =
    ap of_bytes (reverse-reverse (to_bytes k v)) ∙ of_bytes-to_bytes k v h

pub length-memory : (e : Endian) (k v : ℕ) → length (memory e k v) ≡ k
unfolding memory
length-memory little k v = length-to_bytes k v
length-memory big k v = length-reverse (to_bytes k v) ∙ length-to_bytes k v

-- The bytes of a value ahead in the order of the buffer: `read_fixed` on any machine finds it.
pub read_fixed-ahead :
    (host : Endian) (b : ByteArray) (k v : ℕ) (post : List ℕ)
    → IsValid b
    → 0 < k
    → v < 256 ^ k
    → ahead b ≡ memory b.endian k v ++ post
    → (c : ByteArray) × (read_fixed host k b ≡ ok (v, c)) × IsAdvanced b k c × (ahead c ≡ post)
unfolding read_fixed
read_fixed-ahead host b k v post valid pos h e =
    let len : length (memory b.endian k v) ≡ k = length-memory b.endian k v in
    let (c, run, adv, left) =
      read-ahead b (memory b.endian k v) post valid e (omega (arith, len)) in
    (
      c,
      rw (rw len at run) (ap (λ (t : ℕ). ok (t, c)) (of_memory-memory host b.endian k v h)),
      rw len at adv,
      left,
    )

-- What a fixed write leaves in the buffer.
pub write_fixed-IsWritten :
    (al : Allocator) (host : Endian) (b : ByteArray) (k v : ℕ)
    → IsValid b
    → (c : ByteArray) × (write_fixed al host k b v ≡ ok c) × IsWritten b (memory b.endian k v) c
unfolding write_fixed
write_fixed-IsWritten al host b k v valid =
    let (c, run, w) = write-IsWritten al b (memory b.endian k v) valid in
    (c, rw (memory-wire host b.endian k v) run, w)

-- A value of `k` bytes, `k` not 0, written to a valid buffer on one machine and read from the same
-- place on another, is the value; the reader ends where the writer ended.
pub read_fixed-write_fixed :
    (al : Allocator) (writer reader : Endian) (b : ByteArray) (k v : ℕ)
    → IsValid b
    → 0 < k
    → v < 256 ^ k
    → (c : ByteArray) × (d : ByteArray) × (e : ByteArray) × (write_fixed al writer k b v ≡ ok c)
      × (set_position c b.position ≡ ok d)
      × (read_fixed reader k d ≡ ok (v, e))
      × (e.position ≡ c.position)
      × (contents e ≡ contents c)
read_fixed-write_fixed al writer reader b k v valid pos h =
    let (c, run, w) = write_fixed-IsWritten al writer b k v valid in
    let (d, post, back, m, e, same) = rewind-ahead b c (memory b.endian k v) valid w in
    let order : d.endian ≡ b.endian = m.endian ∙ w.endian in
    let (f, got, adv, left) = read_fixed-ahead reader d k v post m.valid pos h (rw order e) in
    (
      c,
      d,
      f,
      run,
      back,
      got,
      omega (arith, adv.position, m.position, w.position, length-memory b.endian k v),
      adv.bytes ∙ same,
    )

-- `isLittleEndian` answers the opposite of what `setIsLittleEndian` was told.
pub is_little_endian-set :
    (b : ByteArray) (val : Bool) → is_little_endian (set_is_little_endian b val) ≡ not val
unfolding is_little_endian set_is_little_endian
is_little_endian-set b true = refl
is_little_endian-set b false = refl
