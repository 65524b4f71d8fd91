-- ===== src/File.antt =====
-- raftinc/fileio.tcc: filereader, which sends a file chunk by chunk. Bytes are numbers, the file is a list,
-- and fread and fseek do what the C library says; `fseek` before the first byte fails and moves nothing.
-- The quotient in the constructor is one of floats of 24 bits, rounded to nearest, ties to even. A chunk
-- that has no room for a byte, where the source divides by zero, is left out.
pub mod Pieces
pub mod Position
pub mod Whole
mod Tests
use raft_lib.Prelude.{
  ℕ, zero, suc, ◌+◌, ◌-◌, ◌/◌, ◌%◌, Bool, true, false, List, [], ◌∷◌, ◌++◌, ◌==◌, ltb, leb,
  if◌then◌else◌, length, take, drop, word, ◌*◌, ◌^◌,
}

-- `filechunk`, less the rest of its buffer.
pub record Chunk : Type 0 where
  pub text : List ℕ
  pub start_position : ℕ
  pub index : ℕ

-- The two signals that are sent.
pub data Mark : Type 0 where
  none eof : Mark

-- The members of filereader with the file and its position. `iterations` is signed in the source, and
-- `run` stops when it would go below zero.
pub record Reader : Type 0 where
  pub file : List ℕ
  pub position : ℕ
  pub iterations : ℕ
  pub init : Bool
  pub chunk_index : ℕ
  pub chunk_offset : ℕ
  pub chunk_size : ℕ

-- The integer nearest to `n / d`, and of two the even one.
unfoldable pub nearest : ℕ → ℕ → ℕ
nearest n d =
    let q = n / d in
    let r = n % d in if ltb (r + r) d then q else if ltb d (r + r) then q + 1 else q + q % 2

-- `n / d` as a float, of which `unit` is the last place, or a greater power of 2 that leaves 24 bits; at
-- most `fuel` places are dropped.
unfoldable pub rounded : ℕ → ℕ → ℕ → ℕ → ℕ
unfolding nearest
rounded zero unit n d = nearest n (d * unit) * unit
rounded (suc fuel) unit n d =
    let rest = rounded fuel (unit + unit) n d in
    if ltb n (2 ^ 24 * (d * unit)) then nearest n (d * unit) * unit else rest

-- `(float) n` of a 64-bit integer.
unfoldable pub to_float : ℕ → ℕ
unfolding rounded
to_float n = rounded 64 1 n 1

-- `a / b` of two floats that are integers below 2 ^ 65, in units of 2 ^ -90: the quotient is not smaller
-- than 2 ^ -65, so these have its 24 bits.
unfoldable pub float_div : ℕ → ℕ → ℕ
unfolding rounded
float_div a b = rounded 155 1 (a * 2 ^ 90) b

-- `std::ceil( (float) n / (float) d )`
unfoldable pub ceil_div : ℕ → ℕ → ℕ
unfolding to_float float_div
ceil_div n d = (float_div (to_float n) (to_float d) + (2 ^ 90 - 1)) / 2 ^ 90

-- The constructor, for a file that can be read.
unfoldable pub open_file : ℕ → ℕ → List ℕ → Reader
unfolding ceil_div
open_file chunk_size chunk_offset file = record {
  file = file;
  position = 0;
  iterations =
      if chunk_offset == 0
      then ceil_div (length file) (chunk_size - 1)
      else ceil_div (length file) ((chunk_size - 1) - (chunk_offset - 1));
  init = false;
  chunk_index = 0;
  chunk_offset = chunk_offset;
  chunk_size = chunk_size;
}

-- `fseek( fp, - chunk_offset, SEEK_CUR )` where `init` is set.
unfoldable pub seek_back : Reader → ℕ
seek_back r =
    if r.init
    then (if leb r.chunk_offset r.position then r.position - r.chunk_offset else r.position)
    else r.position

-- What is sent with `ports` output ports: the difference is unsigned.
unfoldable pub mark_for : ℕ → Reader → Mark
mark_for ports r = if ltb 0 ((r.iterations + word - ports) % word) then none else eof

-- The chunk for one port.
unfoldable pub read_chunk : Reader → Chunk × Reader
unfolding seek_back
read_chunk r =
    let start = seek_back r in
    let text = take (r.chunk_size - 1) (drop start r.file) in
    (
      record { text = text; start_position = start; index = r.chunk_index },
      record r {
        position = start + length text;
        init = true;
        chunk_index = r.chunk_index + 1;
        iterations = r.iterations - 1;
      },
    )

-- `run` for `ports` output ports from one port on, of which those listed have space or not: false where
-- it stops, the chunks with their signals, and the reader.
unfoldable pub run : ℕ → List Bool → Reader → Bool × List (Chunk × Mark) × Reader
unfolding read_chunk mark_for
run ports [] r = (true, [], r)
run ports (space_avail ∷ spaces) r =
    let (c, r1) = read_chunk r in
    let (go, sent, r2) = run ports spaces r1 in
    let skip = run ports spaces r in
    if space_avail
    then (if r.iterations == 0
        then (false, (c, mark_for ports r) ∷ [], r1)
        else (go, (c, mark_for ports r) ∷ sent, r2))
    else skip

-- The runs of the scheduler until the kernel stops, by the space at the ports in each.
unfoldable pub runs : ℕ → List (List Bool) → Reader → List (Chunk × Mark) × Reader
unfolding run
runs ports [] r = ([], r)
runs ports (spaces ∷ more) r =
    let (go, sent, r1) = run ports spaces r in
    let (later, r2) = runs ports more r1 in if go then (sent ++ later, r2) else (sent, r1)
