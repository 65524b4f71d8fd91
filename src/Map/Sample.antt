-- ===== src/Map/Sample.antt =====
-- A map of four kernels: kernel 2 can be cloned.
use raft_lib.Map.Chain.{KPair}
use raft_lib.Map.{Shape, World}
use raft_lib.Topology.{free_info}
use raft_lib.Map.Valid.{IsValid}
use raft_lib.Prelude.{ℕ, List, Bool, arith, ◌∷◌, if◌then◌else◌, [], ◌==◌, none, false, some}

abbrev pub worker : Shape
worker = record {
  output_names = 21 ∷ [];
  input_names = 20 ∷ [];
  output_type = λ _. 7;
  input_type = λ _. 7;
}

abbrev pub names_of : List ℕ → List ℕ → ℕ → ℕ → List ℕ
names_of at two k l = if l == k then at else (if l == 2 then two else [])

-- 1 -> 2 -> 3, and 4 has two outputs.
abbrev pub world : World
world = record {
  ports = record { output = λ _ _. free_info 7; input = λ _ _. free_info 7 };
  outputs = λ k.
      if k == 1
      then 10 ∷ []
      else (if k == 2 then 21 ∷ [] else (if k == 4 then 40 ∷ 41 ∷ [] else []));
  inputs = λ k. if k == 2 then 20 ∷ [] else (if k == 3 then 30 ∷ 31 ∷ [] else []);
  internal_alloc = λ _. false;
  blueprint = λ k. if k == 2 then some worker else none;
  next_kernel = 5;
  source_kernels = [];
  dst_kernels = [];
  all_kernels = [];
  internally_created_kernels = [];
}

pub world-IsValid : IsValid world
world-IsValid = record {
  linked = record {
    forth = λ k n l m h. absurd (ground (arith, h));
    back = λ k n l m h. absurd (ground (arith, h));
  };
  named_out = λ k n o h. absurd (ground (arith, h));
  named_in = λ k n o h. absurd (ground (arith, h));
  fresh_out = λ k h. ground (arith, h);
  fresh_in = λ k h. ground (arith, h);
}

abbrev pub pair : ℕ → ℕ → ℕ → Bool → Bool → KPair
pair a b outs split join = record {
  src = a;
  src_name = none;
  dst = b;
  dst_name = none;
  buffer_size = 0;
  split_to = split;
  src_out_count = outs;
  join_from = join;
  out_of_order = false;
}
