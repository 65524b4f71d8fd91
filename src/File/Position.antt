-- ===== src/File/Position.antt =====
-- How far filereader of raftinc/fileio.tcc reads.
use raft_lib.File.{Reader, seek_back, read_chunk, runs, run, open_file}
use raft_lib.Prelude.{
  ℕ, zero, suc, ◌+◌, ◌-◌, ◌≤◌, ◌≡◌, ◌⊎◌, Bool, true, List, [], ◌∷◌, length, take, drop, refl, arith,
  length-drop, inl, inr, ◌<◌, ◌*◌, if◌then◌else◌, ◌==◌,
}

length-take :
    (n : ℕ) (l : List ℕ)
    → ((n ≤ length l) × (length (take n l) ≡ n)) ⊎ ((length l ≤ n) × (length (take n l) ≡ length l))
length-take zero l = inl (omega arith, refl)
length-take (suc n) [] = inr (omega arith, refl)
length-take (suc n) (x ∷ l) = ground (arith, length-take n l)

-- One port with space in each run.
abbrev pub always : ℕ → List (List Bool)
always zero = []
always (suc n) = (true ∷ []) ∷ always n

-- `k` steps of `d` from `pos`, and no further than the end.
abbrev pub Reaches : ℕ → ℕ → ℕ → ℕ → Type 0
Reaches end pos way pos' =
    ((pos' ≡ pos + way) × (pos + way ≤ end)) ⊎ ((pos' ≡ end) × (end ≤ pos + way))

-- The reader has begun, and the overlap lies before its position or it is at the end of the file.
record HasBegun (r : Reader) : Type 0 where
  begun : r.init ≡ true
  inside : r.position ≤ length r.file
  overlap : (r.chunk_offset ≤ r.position) ⊎ (r.position ≡ length r.file)
  chunk : r.chunk_offset < r.chunk_size

-- The next chunk ends one chunk, less the overlap, further on, or at the end of the file.
read_chunk-Reaches :
    (r : Reader)
    → HasBegun r
    → Reaches
        (length r.file)
        r.position
        (r.chunk_size - 1 - r.chunk_offset)
        (read_chunk r).1.position
unfolding read_chunk seek_back
read_chunk-Reaches r v = ground (
  arith,
  v,
  length-take (r.chunk_size - 1) (drop (r.position - r.chunk_offset) r.file),
  length-drop (r.position - r.chunk_offset) r.file,
  length-take (r.chunk_size - 1) (drop r.position r.file),
  length-drop r.position r.file,
)

read_chunk-HasBegun : (r : Reader) → HasBegun r → HasBegun (read_chunk r).1
unfolding read_chunk
read_chunk-HasBegun r v = record {
  begun = refl;
  inside = ground (arith, read_chunk-Reaches r v);
  overlap = ground (arith, v, read_chunk-Reaches r v);
  chunk = v.chunk;
}

-- One run, which stops when the count is at zero.
runs_one :
    (n : ℕ) (r : Reader)
    → (runs 1 (always (suc n)) r).1.position ≡ (
        if r.iterations == 0
        then (read_chunk r).1.position
        else (runs 1 (always n) (read_chunk r).1).1.position)
unfolding runs run
runs_one n r = ground arith

runs-Reaches :
    (i n : ℕ) (r : Reader)
    → r.iterations ≡ i
    → i < n
    → HasBegun r
    → Reaches
        (length r.file)
        r.position
        (suc i * (r.chunk_size - 1 - r.chunk_offset))
        (runs 1 (always n) r).1.position
unfolding read_chunk
runs-Reaches i zero r e l v = absurd (omega (arith, l))
runs-Reaches zero (suc n) r e l v = ground (arith, e, runs_one n r, read_chunk-Reaches r v)
runs-Reaches (suc i) (suc n) r e l v =
    let rest =
      runs-Reaches i n (read_chunk r).1 (omega (arith, e)) (omega (arith, l))
        (read_chunk-HasBegun r v) in
    ground (arith, e, runs_one n r, read_chunk-Reaches r v, rest)

-- The first chunk.
open_file-first :
    (size offset : ℕ) (file : List ℕ)
    → Reaches (length file) 0 (size - 1) (read_chunk (open_file size offset file)).1.position
unfolding open_file read_chunk seek_back
open_file-first size offset file = ground (arith, length-take (size - 1) file)

open_file-HasBegun :
    (size offset : ℕ) (file : List ℕ)
    → offset < size
    → HasBegun (read_chunk (open_file size offset file)).1
unfolding open_file read_chunk
open_file-HasBegun size offset file h =
    let first = open_file-first size offset file in
    record {
      begun = refl;
      inside = ground (arith, first);
      overlap = ground (arith, first, h);
      chunk = h;
    }

-- The runs after the first one.
runs_later :
    (i n : ℕ) (r : Reader)
    → r.iterations ≡ suc i
    → i < n
    → HasBegun (read_chunk r).1
    → Reaches
        (length r.file)
        (read_chunk r).1.position
        (suc i * (r.chunk_size - 1 - r.chunk_offset))
        (runs 1 (always n) (read_chunk r).1).1.position
unfolding read_chunk
runs_later i n r e l v = runs-Reaches i n (read_chunk r).1 (omega (arith, e)) l v

runs_first :
    (i n : ℕ) (r : Reader)
    → r.iterations ≡ i
    → i < n
    → Reaches (length r.file) 0 (r.chunk_size - 1) (read_chunk r).1.position
    → HasBegun (read_chunk r).1
    → Reaches
        (length r.file)
        0
        (r.chunk_size - 1 + i * (r.chunk_size - 1 - r.chunk_offset))
        (runs 1 (always n) r).1.position
runs_first i zero r e l f v = absurd (omega (arith, l))
runs_first zero (suc n) r e l f v = ground (arith, e, runs_one n r, f)
runs_first (suc i) (suc n) r e l f v =
    let later = runs_later i n r e (omega (arith, l)) v in ground (arith, e, runs_one n r, f, later)

-- With an overlap smaller than a chunk, one port, space in every run, and more runs than the constructor
-- has counted: the reader stops after one chunk and as many steps of a chunk less the overlap and less one
-- byte as were counted, or at the end of the file if that is nearer.
pub runs-open_file :
    (size offset n : ℕ) (file : List ℕ)
    → offset < size
    → (open_file size offset file).iterations < n
    → Reaches
        (length file)
        0
        (size - 1 + (open_file size offset file).iterations * (size - 1 - offset))
        (runs 1 (always n) (open_file size offset file)).1.position
unfolding open_file
runs-open_file size offset n file h l =
    runs_first (open_file size offset file).iterations n (open_file size offset file) refl l
      (open_file-first size offset file) (open_file-HasBegun size offset file h)
