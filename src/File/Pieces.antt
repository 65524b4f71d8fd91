-- ===== src/File/Pieces.antt =====
-- The chunks that filereader of raftinc/fileio.tcc sends, put together again.
use raft_lib.File.{Chunk, Mark, Reader, open_file, seek_back, mark_for, read_chunk, run, runs}
use raft_lib.Prelude.{
  ℕ, zero, suc, ◌+◌, ◌-◌, ◌≤◌, ◌≡◌, Bool, true, false, List, [], ◌∷◌, ◌++◌, length, take, drop,
  refl, arith, ap, ◌∙◌, if_both, ◌==◌,
}

-- Each chunk is put at its start position.
abbrev pub reassemble : List (Chunk × Mark) → List ℕ → List ℕ
reassemble [] text = text
reassemble ((c, m) ∷ sent) text = reassemble sent (take c.start_position text ++ c.text)

reassemble-append :
    (s t : List (Chunk × Mark)) (text : List ℕ)
    → reassemble (s ++ t) text ≡ reassemble t (reassemble s text)
reassemble-append [] t text = refl
reassemble-append ((c, m) ∷ s) t text = reassemble-append s t (take c.start_position text ++ c.text)

take-take : (n m : ℕ) (l : List ℕ) → n ≤ m → take n (take m l) ≡ take n l
take-take zero m l h = refl
take-take (suc n) zero l h = absurd (omega (arith, h))
take-take (suc n) (suc m) [] h = refl
take-take (suc n) (suc m) (x ∷ l) h = ap (λ t. x ∷ t) (take-take n m l (omega (arith, h)))

take-exact : (m : ℕ) (l : List ℕ) → take m l ≡ take (length (take m l)) l
take-exact zero l = refl
take-exact (suc m) [] = refl
take-exact (suc m) (x ∷ l) = ap (λ t. x ∷ t) (take-exact m l)

take-append-drop :
    (n m k : ℕ) (l : List ℕ)
    → k ≡ n + length (take m (drop n l))
    → take n l ++ take m (drop n l) ≡ take k l
take-append-drop zero m k l e =
    let same : length (take m l) ≡ k = omega (arith, e) in take-exact m l ∙ ap (λ i. take i l) same
take-append-drop (suc n) zero zero l e = absurd (omega (arith, e))
take-append-drop (suc n) (suc m) zero l e = absurd (omega (arith, e))
take-append-drop (suc n) zero (suc k) [] e = refl
take-append-drop (suc n) (suc m) (suc k) [] e = refl
take-append-drop (suc n) m (suc k) (x ∷ l) e =
    ap (λ t. x ∷ t) (take-append-drop n m k l (omega (arith, e)))

seek_back-le : (r : Reader) → seek_back r ≤ r.position
unfolding seek_back
seek_back-le r = ground arith

read_chunk-read :
    (r : Reader)
    → take (read_chunk r).0.start_position (take r.position r.file) ++ (read_chunk r).0.text
      ≡ take (read_chunk r).1.position r.file
unfolding read_chunk
read_chunk-read r =
    ap (λ t. t ++ take (r.chunk_size - 1) (drop (seek_back r) r.file))
      (take-take (seek_back r) r.position r.file (seek_back-le r))
    ∙ take-append-drop (seek_back r) (r.chunk_size - 1)
        (seek_back r + length (take (r.chunk_size - 1) (drop (seek_back r) r.file))) r.file refl

run-reassemble :
    (ports : ℕ) (spaces : List Bool) (r : Reader)
    → (reassemble (run ports spaces r).1 (take r.position r.file)
        ≡ take (run ports spaces r).2.position (run ports spaces r).2.file)
      × ((run ports spaces r).2.file ≡ r.file)
unfolding run read_chunk
run-reassemble ports [] r = (refl, refl)
run-reassemble ports (false ∷ spaces) r = run-reassemble ports spaces r
run-reassemble ports (true ∷ spaces) r =
    let (c, r1) = read_chunk r in
    let (go, sent, r2) = run ports spaces r1 in
    if_both {A = Bool × List (Chunk × Mark) × Reader}
      (λ x.
        (reassemble x.1 (take r.position r.file) ≡ take x.2.position x.2.file)
        × (x.2.file ≡ r.file))
      (r.iterations == 0) (false, (c, mark_for ports r) ∷ [], r1)
      (go, (c, mark_for ports r) ∷ sent, r2) (read_chunk-read r, refl)
      (
        ap (reassemble sent) (read_chunk-read r) ∙ (run-reassemble ports spaces r1).0,
        (run-reassemble ports spaces r1).1,
      )

runs-reassemble_from :
    (ports : ℕ) (more : List (List Bool)) (r : Reader)
    → reassemble (runs ports more r).0 (take r.position r.file)
      ≡ take (runs ports more r).1.position (runs ports more r).1.file
unfolding runs
runs-reassemble_from ports [] r = refl
runs-reassemble_from ports (spaces ∷ more) r =
    let (go, sent, r1) = run ports spaces r in
    let (later, r2) = runs ports more r1 in
    let first = run-reassemble ports spaces r in
    if_both {A = List (Chunk × Mark) × Reader}
      (λ x. reassemble x.0 (take r.position r.file) ≡ take x.1.position x.1.file) go
      (sent ++ later, r2) (sent, r1)
      (reassemble-append sent later (take r.position r.file)
        ∙ ap (reassemble later) first.0
        ∙ runs-reassemble_from ports more r1)
      first.0

runs-file : (ports : ℕ) (more : List (List Bool)) (r : Reader) → (runs ports more r).1.file ≡ r.file
unfolding runs
runs-file ports [] r = refl
runs-file ports (spaces ∷ more) r =
    let (go, sent, r1) = run ports spaces r in
    let (later, r2) = runs ports more r1 in
    if_both {A = List (Chunk × Mark) × Reader} (λ x. x.1.file ≡ r.file) go (sent ++ later, r2)
      (sent, r1) (runs-file ports more r1 ∙ (run-reassemble ports spaces r).1)
      (run-reassemble ports spaces r).1

-- Whatever the sizes of the chunk and of the overlap, and whichever ports have space in each run: the
-- chunks that were sent, each put at its start position, are the file up to the position that was
-- reached, so that no byte before it is left out.
pub runs-reassemble :
    (ports chunk_size chunk_offset : ℕ) (file : List ℕ) (more : List (List Bool))
    → reassemble (runs ports more (open_file chunk_size chunk_offset file)).0 []
      ≡ take (runs ports more (open_file chunk_size chunk_offset file)).1.position file
unfolding open_file
runs-reassemble ports chunk_size chunk_offset file more =
    let r = open_file chunk_size chunk_offset file in
    runs-reassemble_from ports more r
    ∙ ap (take (runs ports more r).1.position) (runs-file ports more r)
