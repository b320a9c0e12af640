-- ===== src/Codec/Tests.antt =====
-- The typed reads and writes at concrete inputs.
use net_ninja.Common.{◌≤◌, ◌≡◌, refl, [], ◌∷◌, arith, ok}
use net_ninja.ByteArray.{ByteArray, little, big, set_position}
use net_ninja.ByteArray.Place.{contents}
use net_ninja.ByteArray.Tests.{zeros, half_read, half_read-IsValid}
use net_ninja.Codec.{
  byteswap, put_groups, write_uint64, read_uint64, write_string_f16, read_string_f16,
}
use net_ninja.Codec.Fixed.{byteswap_twice}
use net_ninja.Codec.Varint.{read-write_uint64}
use net_ninja.Codec.Text.{TextRoundTrip, read-write_string_f16}

byteswap_run : byteswap 4 0x01020304 ≡ 0x04030201
unfolding byteswap
byteswap_run = refl

put_groups_run : put_groups 5 300 ≡ ok (0xac ∷ 0x02 ∷ [])
unfolding put_groups
put_groups_run = refl

byteswap_twice_example : byteswap 2 (byteswap 2 258) ≡ 258
byteswap_twice_example = byteswap_twice 2 258 (omega arith)

read-write_uint64_example :
    (c : ByteArray) × (d : ByteArray) × (e : ByteArray) × (write_uint64 zeros half_read
        0xffff_ffff_ffff_ffff
      ≡ ok c)
    × (set_position c 1 ≡ ok d)
    × (read_uint64 d ≡ ok (0xffff_ffff_ffff_ffff, e))
    × (c.position ≤ 11)
    × (e.position ≡ c.position)
    × (contents e ≡ contents c)
read-write_uint64_example =
    read-write_uint64 zeros half_read 0xffff_ffff_ffff_ffff half_read-IsValid (omega arith)

read-write_string_f16_example :
    TextRoundTrip (write_string_f16 zeros little) (read_string_f16 big) half_read (104 ∷ 105 ∷ [])
read-write_string_f16_example =
    read-write_string_f16 zeros little big half_read (104 ∷ 105 ∷ []) half_read-IsValid
      (omega arith) (omega arith)
