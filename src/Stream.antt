-- ===== src/Stream.antt =====
-- src/stream.cpp: reading and writing a fixed number of bytes on a stream that takes them in parts.
-- `read` and `write` of the stream, which a socket implements, are parameters. They give bytes or a
-- count, or an int that is not positive: the end or an error, here the number without its sign. The
-- loops have fuel, and as much as the length is enough.
pub mod Whole
pub mod Sent
mod Tests
use net_ninja.Common.{
  ℕ, zero, suc, ◌-◌, ◌%◌, ◌^◌, List, [], ◌++◌, Option, none, some, ◌==◌, if◌then◌else◌, length,
  drop,
}

pub data Reply : Type 0 where
  got : List ℕ → Reply
  stop : ℕ → Reply

pub data Count : Type 0 where
  sent : ℕ → Count
  failed : ℕ → Count

-- The int that is returned: the length, as its bit pattern, or the int of the last read.
pub data Answer : Type 0 where
  full : ℕ → Answer
  stopped : ℕ → Answer

-- `return length`, of a size_t as an int.
abbrev pub as_int : ℕ → ℕ
as_int length = length % 2 ^ 32

-- The bytes of a read stand in front of those of the reads behind it.
abbrev pub after_part :
    {State : Type 0} → List ℕ → Option (Answer × List ℕ × State) → Option (Answer × List ℕ × State)
after_part d none = none
after_part d (some (a, out, s)) = some (a, d ++ out, s)

module _ {State : Type 0} (read : State → ℕ → Reply × State) where
  -- `while(left > 0)`, with the answer that follows it, the bytes put into the buffer and the stream.
  unfoldable pub read_fix_loop : ℕ → State → ℕ → ℕ → Option (Answer × List ℕ × State)
  read_fix_loop zero s size left =
      if left == 0 then some (Answer.full (as_int size), [], s) else none
  read_fix_loop (suc fuel) s size left =
      let more : Option (Answer × List ℕ × State) = elim (read s left).0 [
        | got d ↦ after_part d (read_fix_loop fuel (read s left).1 size (left - length d))
        | stop k ↦ some (Answer.stopped k, [], (read s left).1)
      ] in
      if left == 0 then some (Answer.full (as_int size), [], s) else more

  unfoldable pub read_fix_size : State → ℕ → Option (Answer × List ℕ × State)
  read_fix_size s size = read_fix_loop size s size size

module _ {State : Type 0} (write : State → List ℕ → Count × State) where
  -- `while(left > 0)`; `rest` is what the buffer holds from the offset on, `left` bytes.
  unfoldable pub write_fix_loop : ℕ → State → ℕ → List ℕ → Option (Answer × State)
  write_fix_loop zero s size rest =
      if length rest == 0 then some (Answer.full (as_int size), s) else none
  write_fix_loop (suc fuel) s size rest =
      let more : Option (Answer × State) = elim (write s rest).0 [
        | sent n ↦ write_fix_loop fuel (write s rest).1 size (drop n rest)
        | failed k ↦ some (Answer.stopped k, (write s rest).1)
      ] in
      if length rest == 0 then some (Answer.full (as_int size), s) else more

  unfoldable pub write_fix_size : State → List ℕ → Option (Answer × State)
  write_fix_size s buffer = write_fix_loop (length buffer) s (length buffer) buffer
