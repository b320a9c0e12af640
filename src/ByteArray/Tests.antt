-- ===== src/ByteArray/Tests.antt =====
-- Runs of the buffer, and its theorems at concrete inputs.
use net_ninja.Common.{
  ◌≡◌, refl, [], ◌∷◌, arith, replicate, length-replicate, overwrite, ok, out_of_range,
}
use net_ninja.ByteArray.{
  ByteArray, Allocator, big, create, new_node, append_nodes, ceil_div, grow, get_capacity,
  get_read_size, add_capacity, copy_in, copy_out, write_loop, write, read_loop, read_from, read,
  set_position,
}
use net_ninja.ByteArray.Invariant.{IsValid}
use net_ninja.ByteArray.Place.{contents}
use net_ninja.ByteArray.Contract.{IsWritten, write-IsWritten}
use net_ninja.ByteArray.Slices.{IsAdvanced, read-IsAdvanced, read_too_long}
use net_ninja.ByteArray.RoundTrip.{read-write}

abbrev pub zeros : Allocator
zeros = record { raw = λ s. replicate s 0; length-raw = λ s. length-replicate s 0 }

-- Two nodes of two bytes, three bytes written, the position behind the first.
abbrev pub half_read : ByteArray
half_read = record {
  base_size = 2;
  position = 1;
  capacity = 4;
  size = 3;
  nodes = record { ptr = 1 ∷ 2 ∷ []; size = 2 } ∷ record { ptr = 3 ∷ 0 ∷ []; size = 2 } ∷ [];
  cur = 0;
  endian = big;
}

pub half_read-IsValid : IsValid half_read
half_read-IsValid = record {
  base_pos = omega arith;
  chain = omega arith;
  root = omega arith;
  capacity = refl;
  cursor = refl;
  within = omega arith;
  room = omega arith;
}

-- The same buffer, full and read to its end.
abbrev all_read : ByteArray
all_read = record half_read { position = 4; size = 4; cur = 2 }

all_read-IsValid : IsValid all_read
all_read-IsValid = record {
  base_pos = omega arith;
  chain = omega arith;
  root = omega arith;
  capacity = refl;
  cursor = refl;
  within = omega arith;
  room = omega arith;
}

write_run :
    write zeros (create zeros 2) (5 ∷ 6 ∷ 7 ∷ [])
    ≡ ok (record {
      base_size = 2;
      position = 3;
      capacity = 4;
      size = 3;
      nodes = record { ptr = 5 ∷ 6 ∷ []; size = 2 } ∷ record { ptr = 7 ∷ 0 ∷ []; size = 2 } ∷ [];
      cur = 1;
      endian = big;
    })
unfolding write write_loop copy_in overwrite create add_capacity grow append_nodes new_node ceil_div
    get_capacity
write_run = refl

read_run : read half_read 2 ≡ ok (2 ∷ 3 ∷ [], record half_read { position = 3; cur = 1 })
unfolding read read_from read_loop copy_out get_read_size
read_run = refl

write-IsWritten_example :
    (c : ByteArray) × (write zeros half_read (7 ∷ 8 ∷ 9 ∷ 10 ∷ []) ≡ ok c)
    × IsWritten half_read (7 ∷ 8 ∷ 9 ∷ 10 ∷ []) c
write-IsWritten_example = write-IsWritten zeros half_read (7 ∷ 8 ∷ 9 ∷ 10 ∷ []) half_read-IsValid

read-IsAdvanced_example :
    (c : ByteArray) × (read half_read 2 ≡ ok (2 ∷ 3 ∷ [], c)) × IsAdvanced half_read 2 c
read-IsAdvanced_example = read-IsAdvanced half_read 2 half_read-IsValid (omega arith) (omega arith)

read_too_long_example : read half_read 3 ≡ out_of_range
read_too_long_example = read_too_long half_read 3 (omega arith)

read-write_example :
    (c : ByteArray) × (d : ByteArray) × (e : ByteArray) × (write zeros half_read
        (7 ∷ 8 ∷ 9 ∷ 10 ∷ [])
      ≡ ok c)
    × (set_position c 1 ≡ ok d)
    × (read d 4 ≡ ok (7 ∷ 8 ∷ 9 ∷ 10 ∷ [], e))
    × (e.position ≡ c.position)
    × (contents e ≡ contents c)
read-write_example =
    read-write zeros half_read (7 ∷ 8 ∷ 9 ∷ 10 ∷ []) half_read-IsValid (omega arith)
