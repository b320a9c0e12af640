-- ===== src/ByteArray.antt =====
-- src/bytearray.h and src/bytearray.cpp: the chain of nodes and the operations that move through it.
-- The chain is the list of its nodes from `m_root`; `m_cur` is an index into it, and the length of
-- the list stands for the null pointer. Bytes are numbers below 256 in the code; no operation here
-- looks at their values. Positions and sizes are size_t that do not wrap below 2^64 bytes.
pub mod Loop
pub mod Invariant
pub mod Place
pub mod Contract
pub mod Slices
pub mod RoundTrip
pub mod Vectors
pub mod Tests
use net_ninja.Common.{
  ℕ, zero, suc, ◌+◌, ◌-◌, ◌/◌, ◌%◌, ◌≡◌, Bool, true, false, List, [], ◌∷◌, ◌++◌, ltb, leb, ◌==◌,
  if◌then◌else◌, length, take, drop, overwrite, Outcome, ok, out_of_range, fault, ◌>>=◌,
}

pub record Node : Type 0 where
  pub ptr : List ℕ
  pub size : ℕ

pub data Endian : Type 0 where
  little big : Endian

pub record ByteArray : Type 0 where
  pub base_size : ℕ
  pub position : ℕ
  pub capacity : ℕ
  pub size : ℕ
  pub nodes : List Node
  pub cur : ℕ
  pub endian : Endian

-- `new char[s]`: memory of `s` bytes whose values nobody has set.
pub record Allocator : Type 0 where
  pub raw : ℕ → List ℕ
  pub length-raw : (s : ℕ) → length (raw s) ≡ s

unfoldable pub new_node : Allocator → ℕ → Node
new_node al s = record { ptr = al.raw s; size = s }

unfoldable pub create : Allocator → ℕ → ByteArray
unfolding new_node
create al base = record {
  base_size = base;
  position = 0;
  capacity = base;
  size = 0;
  nodes = new_node al base ∷ [];
  cur = 0;
  endian = big;
}

unfoldable pub is_little_endian : ByteArray → Bool
is_little_endian b = elim b.endian [ big ↦ true | little ↦ false ]

unfoldable pub set_is_little_endian : ByteArray → Bool → ByteArray
set_is_little_endian b val = record b { endian = if val then little else big }

unfoldable pub get_capacity : ByteArray → ℕ
get_capacity b = b.capacity - b.position

unfoldable pub get_read_size : ByteArray → ℕ
get_read_size b = b.size - b.position

-- The `for` loop of `addCapacity`: `count` nodes behind the last one.
unfoldable pub append_nodes : Allocator → ℕ → ℕ → List Node → ℕ → List Node × ℕ
append_nodes al base zero nodes capacity = (nodes, capacity)
append_nodes al base (suc count) nodes capacity =
    append_nodes al base count (nodes ++ (new_node al base ∷ [])) (capacity + base)

-- ceil(1.0 * size / base), exact while `size` is below 2^53.
unfoldable pub ceil_div : ℕ → ℕ → ℕ
ceil_div size base = (size + base - 1) / base

unfoldable pub grow : Allocator → ByteArray → ℕ → ByteArray
grow al b count =
    let (nodes', capacity') = append_nodes al b.base_size count b.nodes b.capacity in
    record b {
      nodes = nodes';
      capacity = capacity';
      cur = if get_capacity b == 0 then length b.nodes else b.cur;
    }

unfoldable pub add_capacity : Allocator → ByteArray → ℕ → ByteArray
add_capacity al b size =
    if size == 0
    then b
    else if leb size (get_capacity b)
    then b
    else grow al b (ceil_div (size - get_capacity b) b.base_size)

unfoldable pub copy_in : Node → ℕ → List ℕ → Node
copy_in n npos buf = record n { ptr = overwrite n.ptr npos buf }

unfoldable pub copy_out : Node → ℕ → ℕ → List ℕ
copy_out n npos size = take size (drop npos n.ptr)

-- The loop of `write`, over the chain from `m_cur` on. It ends with the nodes it went through,
-- `m_cur` and `m_position`. An empty chain is the null pointer.
unfoldable pub write_loop : List Node → ℕ → ℕ → ℕ → List ℕ → Outcome (List Node × ℕ × ℕ)
unfolding copy_in
write_loop [] cur position npos buf = fault
write_loop (n ∷ rest) cur position npos buf =
    let ncap = n.size - npos in
    let more = do
      (rest', cur', position') ← write_loop rest (cur + 1) (position + ncap) 0 (drop ncap buf)
      ok (copy_in n npos (take ncap buf) ∷ rest', cur', position')
    in if leb (length buf) ncap
      then ok (
        copy_in n npos buf ∷ rest,
        (if n.size == npos + length buf then cur + 1 else cur),
        position + length buf,
      )
      else more

unfoldable pub write : Allocator → ByteArray → List ℕ → Outcome ByteArray
write al b [] = ok b
write al b (x ∷ xs) =
    let buf = x ∷ xs in
    let c = add_capacity al b (length buf) in
    do
      (rest', cur', position') ←
          write_loop (drop c.cur c.nodes) c.cur c.position (c.position % c.base_size) buf
      ok (record c {
        nodes = take c.cur c.nodes ++ rest';
        cur = cur';
        position = position';
        size = if ltb c.size position' then position' else c.size;
      })

-- The loop of both `read`s: the bytes, `m_cur` and `m_position`.
unfoldable pub read_loop : List Node → ℕ → ℕ → ℕ → ℕ → Outcome (List ℕ × ℕ × ℕ)
unfolding copy_out
read_loop [] cur position npos size = fault
read_loop (n ∷ rest) cur position npos size =
    let ncap = n.size - npos in
    let more = do
      (out, cur', position') ← read_loop rest (cur + 1) (position + ncap) 0 (size - ncap)
      ok (copy_out n npos ncap ++ out, cur', position')
    in if leb size ncap
      then ok
          (copy_out n npos size, (if n.size == npos + size then cur + 1 else cur), position + size)
      else more

-- What follows the check of the length: `m_cur->size` is read also where `size` is 0.
unfoldable pub read_from : List Node → ℕ → ℕ → ℕ → ℕ → Outcome (List ℕ × ℕ × ℕ)
read_from [] cur position npos size = fault
read_from (n ∷ rest) cur position npos zero = ok ([], cur, position)
read_from (n ∷ rest) cur position npos (suc size) =
    read_loop (n ∷ rest) cur position npos (suc size)

unfoldable pub read : ByteArray → ℕ → Outcome (List ℕ × ByteArray)
read b size = if ltb (get_read_size b) size then out_of_range else do
  (out, cur', position') ←
      read_from (drop b.cur b.nodes) b.cur b.position (b.position % b.base_size) size
  ok (out, record b { cur = cur'; position = position' })

-- `read(buf, size, position) const`: it starts at `m_cur`, whatever `position` is.
unfoldable pub read_at : ByteArray → ℕ → ℕ → Outcome (List ℕ)
read_at b size position = if ltb (b.size - position) size then out_of_range else do
  (out, cur', position') ←
      read_from (drop b.cur b.nodes) b.cur position (position % b.base_size) size
  ok out

-- `while(v > m_cur->size)` and the step over a node that is used up.
unfoldable pub seek : List Node → ℕ → ℕ → Outcome ℕ
seek [] cur v = fault
seek (n ∷ rest) cur v =
    let further = seek rest (cur + 1) (v - n.size) in
    if ltb n.size v then further else if v == n.size then ok (cur + 1) else ok cur

unfoldable pub set_position : ByteArray → ℕ → Outcome ByteArray
set_position b v = if ltb b.capacity v then out_of_range else do
  cur' ← seek b.nodes 0 v
  ok (record b { position = v; size = if ltb b.size v then v else b.size; cur = cur' })

-- `clear` keeps the root node only.
unfoldable pub clear : ByteArray → ByteArray
clear b = record b {
  position = 0;
  capacity = b.base_size;
  size = 0;
  nodes = take 1 b.nodes;
  cur = 0;
}

unfoldable pub to_string : ByteArray → Outcome (List ℕ)
to_string b = if get_read_size b == 0 then ok [] else read_at b (get_read_size b) b.position
