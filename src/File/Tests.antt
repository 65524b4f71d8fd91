-- ===== src/File/Tests.antt =====
-- Small files in small chunks.
use raft_lib.File.{
  Mark, open_file, runs, ceil_div, run, mark_for, to_float, float_div, rounded, nearest,
}
use raft_lib.File.Pieces.{reassemble, runs-reassemble}
use raft_lib.File.Position.{Reaches, always, runs-open_file}
use raft_lib.File.Whole.{runs-whole}
use raft_lib.Prelude.{
  map, ℕ, ◌+◌, ◌-◌, ◌*◌, ◌≡◌, List, [], ◌∷◌, true, false, length, take, refl, arith,
}

abbrev six : List ℕ
six = 1 ∷ 2 ∷ 3 ∷ 4 ∷ 5 ∷ 6 ∷ []

abbrev nine : List ℕ
nine = 1 ∷ 2 ∷ 3 ∷ 4 ∷ 5 ∷ 6 ∷ 7 ∷ 8 ∷ 9 ∷ []

-- Chunks of four bytes with an overlap of two: the ninth byte is never read.
short_test : (runs 1 (always 9) (open_file 4 2 nine)).1.position ≡ 8
unfolding runs open_file ceil_div to_float float_div rounded nearest
short_test = refl

runs-reassemble_example :
    reassemble (runs 2 ((true ∷ false ∷ []) ∷ (true ∷ true ∷ []) ∷ []) (open_file 4 1 six)).0 []
    ≡ take
        (runs 2 ((true ∷ false ∷ []) ∷ (true ∷ true ∷ []) ∷ []) (open_file 4 1 six)).1.position
        six
runs-reassemble_example = runs-reassemble 2 4 1 six ((true ∷ false ∷ []) ∷ (true ∷ true ∷ []) ∷ [])

runs-open_file_example :
    Reaches
      (length nine)
      0
      (4 - 1 + (open_file 4 2 nine).iterations * (4 - 1 - 2))
      (runs 1 (always 9) (open_file 4 2 nine)).1.position
unfolding open_file ceil_div to_float float_div rounded nearest
runs-open_file_example = runs-open_file 4 2 9 nine (omega arith) (omega arith)

runs-whole_example : reassemble (runs 1 (always 4) (open_file 4 0 six)).0 [] ≡ six
unfolding open_file ceil_div to_float float_div rounded nearest
runs-whole_example = runs-whole 4 4 six (omega arith) (omega arith) (omega arith) (omega arith)

-- With two ports, the first of two chunks is marked as the end and the second is not.
mark_test :
    map (λ x. x.1) (run 2 (true ∷ true ∷ []) (open_file 4 0 six)).1 ≡ Mark.eof ∷ Mark.none ∷ []
unfolding run mark_for open_file ceil_div to_float float_div rounded nearest
mark_test = refl

-- The exact quotient is 33554434.
float_test : ceil_div 33554434 1 ≡ 33554432
unfolding ceil_div to_float float_div rounded nearest
float_test = refl

exact_test : ceil_div 9 4 ≡ 3
unfolding ceil_div to_float float_div rounded nearest
exact_test = refl
