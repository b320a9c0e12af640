-- ===== src/Codec.antt =====
-- src/endian.h and the typed reads and writes of src/bytearray.cpp. A value of an integer type is
-- the number of its bit pattern: a uint16_t is a number below 2^16, an int16_t the same pattern.
-- `host` is SERVER_CC_BYTE_ORDER, the byte order of the machine.
pub mod Fixed
pub mod Zigzag
pub mod Varint
pub mod Text
mod Tests
use Prim.Native.Nat.{bit_and, bit_or, bit_xor}
use mathlib.Core.List.{reverse}
use net_ninja.Common.{
  ℕ, zero, suc, ◌+◌, ◌-◌, ◌*◌, ◌/◌, ◌%◌, ◌^◌, Bool, true, false, not, List, [], ◌∷◌, ltb, leb,
  if◌then◌else◌, length, Outcome, ok, fault, ◌>>=◌,
}
use net_ninja.ByteArray.{ByteArray, Endian, little, big, Allocator, write, read}

-- The `k` bytes of a value, lowest first, and back.
unfoldable pub to_bytes : ℕ → ℕ → List ℕ
to_bytes zero v = []
to_bytes (suc k) v = v % 256 ∷ to_bytes k (v / 256)

unfoldable pub of_bytes : List ℕ → ℕ
of_bytes [] = 0
of_bytes (x ∷ xs) = x + 256 * of_bytes xs

-- bswap_16, bswap_32 and bswap_64, for a width of `k` bytes.
unfoldable pub byteswap : ℕ → ℕ → ℕ
unfolding to_bytes of_bytes
byteswap k v = of_bytes (reverse (to_bytes k v))

unfoldable pub differs : Endian → Endian → Bool
differs little little = false
differs little big = true
differs big little = true
differs big big = false

-- How a value of `k` bytes lies in memory on a machine of the byte order `host`.
unfoldable pub memory : Endian → ℕ → ℕ → List ℕ
unfolding to_bytes
memory little k v = to_bytes k v
memory big k v = reverse (to_bytes k v)

unfoldable pub of_memory : Endian → List ℕ → ℕ
unfolding of_bytes
of_memory little xs = of_bytes xs
of_memory big xs = of_bytes (reverse xs)

-- `(value & 0x7F) | 0x80`, kept in a byte.
unfoldable pub more_group : ℕ → ℕ
more_group value = bit_or (bit_and value 0x7f) 0x80 % 2 ^ 8

-- The `while` of writeUint32 and writeUint64: it fills `tmp`, which has room for `room` bytes.
-- A byte more would be written past its end.
unfoldable pub put_groups : ℕ → ℕ → Outcome (List ℕ)
unfolding more_group
put_groups zero value = fault
put_groups (suc room) value =
    let more = do rest ← put_groups room (value / 2 ^ 7); ok (more_group value ∷ rest)
    in if leb 0x80 value then more else ok (value % 2 ^ 8 ∷ [])

unfoldable pub encode_zigzag32 : ℕ → ℕ
encode_zigzag32 v =
    if leb (2 ^ 31) v
    then ((2 ^ 32 - v) % 2 ^ 32 * 2 % 2 ^ 32 + 2 ^ 32 - 1) % 2 ^ 32
    else v * 2 % 2 ^ 32

unfoldable pub encode_zigzag64 : ℕ → ℕ
encode_zigzag64 v =
    if leb (2 ^ 63) v
    then ((2 ^ 64 - v) % 2 ^ 64 * 2 % 2 ^ 64 + 2 ^ 64 - 1) % 2 ^ 64
    else v * 2 % 2 ^ 64

unfoldable pub decode_zigzag32 : ℕ → ℕ
decode_zigzag32 v = bit_xor (v / 2) ((2 ^ 32 - bit_and v 1) % 2 ^ 32)

unfoldable pub decode_zigzag64 : ℕ → ℕ
decode_zigzag64 v = bit_xor (v / 2) ((2 ^ 64 - bit_and v 1) % 2 ^ 64)

-- One byte needs no order.
module _ (al : Allocator) where
  unfoldable pub write_fint8 : ByteArray → ℕ → Outcome ByteArray
  unfolding to_bytes
  write_fint8 b value = write al b (to_bytes 1 value)

  unfoldable pub write_fuint8 : ByteArray → ℕ → Outcome ByteArray
  unfolding to_bytes
  write_fuint8 b value = write al b (to_bytes 1 value)

module _ (al : Allocator) (host : Endian) where
  -- The body of writeFint16 to writeFuint64, at the width of `k` bytes.
  unfoldable pub write_fixed : ℕ → ByteArray → ℕ → Outcome ByteArray
  unfolding differs byteswap memory
  write_fixed k b value =
      write al b (memory host k (if differs b.endian host then byteswap k value else value))

  unfoldable pub write_fint16 : ByteArray → ℕ → Outcome ByteArray
  write_fint16 = write_fixed 2

  unfoldable pub write_fuint16 : ByteArray → ℕ → Outcome ByteArray
  write_fuint16 = write_fixed 2

  unfoldable pub write_fint32 : ByteArray → ℕ → Outcome ByteArray
  write_fint32 = write_fixed 4

  unfoldable pub write_fuint32 : ByteArray → ℕ → Outcome ByteArray
  write_fuint32 = write_fixed 4

  unfoldable pub write_fint64 : ByteArray → ℕ → Outcome ByteArray
  write_fint64 = write_fixed 8

  unfoldable pub write_fuint64 : ByteArray → ℕ → Outcome ByteArray
  write_fuint64 = write_fixed 8

module _ (al : Allocator) where
  unfoldable pub write_uint32 : ByteArray → ℕ → Outcome ByteArray
  write_uint32 b value = do tmp ← put_groups 5 value; write al b tmp

  unfoldable pub write_uint64 : ByteArray → ℕ → Outcome ByteArray
  write_uint64 b value = do tmp ← put_groups 10 value; write al b tmp

  unfoldable pub write_int32 : ByteArray → ℕ → Outcome ByteArray
  write_int32 b value = write_uint32 b (encode_zigzag32 value)

  unfoldable pub write_int64 : ByteArray → ℕ → Outcome ByteArray
  write_int64 b value = write_uint64 b (encode_zigzag64 value)

module _ (host : Endian) where
  -- The body of readFint16 to readFuint64, at the width of `k` bytes.
  unfoldable pub read_fixed : ℕ → ByteArray → Outcome (ℕ × ByteArray)
  unfolding differs byteswap of_memory
  read_fixed k b = do
    (xs, c) ← read b k
    ok ((if differs b.endian host then byteswap k (of_memory host xs) else of_memory host xs), c)

  unfoldable pub read_fint16 : ByteArray → Outcome (ℕ × ByteArray)
  read_fint16 = read_fixed 2

  unfoldable pub read_fuint16 : ByteArray → Outcome (ℕ × ByteArray)
  read_fuint16 = read_fixed 2

  unfoldable pub read_fint32 : ByteArray → Outcome (ℕ × ByteArray)
  read_fint32 = read_fixed 4

  unfoldable pub read_fuint32 : ByteArray → Outcome (ℕ × ByteArray)
  read_fuint32 = read_fixed 4

  unfoldable pub read_fint64 : ByteArray → Outcome (ℕ × ByteArray)
  read_fint64 = read_fixed 8

  unfoldable pub read_fuint64 : ByteArray → Outcome (ℕ × ByteArray)
  read_fuint64 = read_fixed 8

unfoldable pub read_fint8 : ByteArray → Outcome (ℕ × ByteArray)
unfolding of_bytes
read_fint8 b = do (xs, c) ← read b 1; ok (of_bytes xs, c)

unfoldable pub read_fuint8 : ByteArray → Outcome (ℕ × ByteArray)
unfolding of_bytes
read_fuint8 b = do (xs, c) ← read b 1; ok (of_bytes xs, c)

-- The `for` loop of readUint32 and readUint64 for `w` bits, with `rounds` rounds left.
unfoldable pub read_groups : ℕ → ℕ → ℕ → ℕ → ByteArray → Outcome (ℕ × ByteArray)
read_groups w zero shift result b = ok (result, b)
read_groups w (suc rounds) shift result b = do
  (x, c) ← read_fuint8 b
  let more = read_groups w rounds (shift + 7) (bit_or result (bit_and x 0x7f * 2 ^ shift % 2 ^ w)) c
  if ltb x 0x80 then ok (bit_or result (x * 2 ^ shift % 2 ^ w), c) else more

-- i = 0, 7, .. 28 and i = 0, 7, .. 63.
unfoldable pub read_uint32 : ByteArray → Outcome (ℕ × ByteArray)
read_uint32 b = read_groups 32 5 0 0 b

unfoldable pub read_uint64 : ByteArray → Outcome (ℕ × ByteArray)
read_uint64 b = read_groups 64 10 0 0 b

unfoldable pub read_int32 : ByteArray → Outcome (ℕ × ByteArray)
read_int32 b = do (v, c) ← read_uint32 b; ok (decode_zigzag32 v, c)

unfoldable pub read_int64 : ByteArray → Outcome (ℕ × ByteArray)
read_int64 b = do (v, c) ← read_uint64 b; ok (decode_zigzag64 v, c)

-- A std::string is the list of its bytes. A length that is passed as a uint16_t or uint32_t wraps.
module _ (al : Allocator) (host : Endian) where
  unfoldable pub write_string_f16 : ByteArray → List ℕ → Outcome ByteArray
  write_string_f16 b value = do
    c ← write_fuint16 al host b (length value % 2 ^ 16)
    write al c value

  unfoldable pub write_string_f32 : ByteArray → List ℕ → Outcome ByteArray
  write_string_f32 b value = do
    c ← write_fuint32 al host b (length value % 2 ^ 32)
    write al c value

  unfoldable pub write_string_f64 : ByteArray → List ℕ → Outcome ByteArray
  write_string_f64 b value = do c ← write_fuint64 al host b (length value); write al c value

module _ (al : Allocator) where
  unfoldable pub write_string_vint : ByteArray → List ℕ → Outcome ByteArray
  write_string_vint b value = do c ← write_uint64 al b (length value); write al c value

  unfoldable pub write_string_without_length : ByteArray → List ℕ → Outcome ByteArray
  write_string_without_length b value = write al b value

-- A length that has been read, and then that many bytes.
unfoldable pub read_counted : Outcome (ℕ × ByteArray) → Outcome (List ℕ × ByteArray)
read_counted len = do (n, c) ← len; read c n

unfoldable pub read_string_f16 : Endian → ByteArray → Outcome (List ℕ × ByteArray)
read_string_f16 host b = read_counted (read_fuint16 host b)

unfoldable pub read_string_f32 : Endian → ByteArray → Outcome (List ℕ × ByteArray)
read_string_f32 host b = read_counted (read_fuint32 host b)

unfoldable pub read_string_f64 : Endian → ByteArray → Outcome (List ℕ × ByteArray)
read_string_f64 host b = read_counted (read_fuint64 host b)

unfoldable pub read_string_vint : ByteArray → Outcome (List ℕ × ByteArray)
read_string_vint b = read_counted (read_uint64 b)
