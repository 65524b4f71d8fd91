-- ===== src/Split/Tests.antt =====
-- Three items, a full output, and one with space for two.
use raft_lib.Prelude.{ℕ, List, [], ◌∷◌, some, ◌≡◌, ◌+◌, ◌-◌, arith, refl, take}
use raft_lib.Split.{Channel, split_run, space_avail, join_run, get_item, shown_as, send_range}
use raft_lib.Split.Lost.{sent, total, split_run-total, items_of}

abbrev full_channel : Channel ℕ
full_channel = record { items = (1, 0) ∷ []; capacity = 1 }

abbrev roomy_channel : Channel ℕ
roomy_channel = record { items = (2, 0) ∷ []; capacity = 3 }

abbrev three_items : List (ℕ × ℕ)
three_items = (5, 0) ∷ (6, 9) ∷ (7, 0) ∷ []

-- The signal of the second item is shown with the first.
abbrev displaced : List ℕ
displaced = 9 ∷ 0 ∷ 0 ∷ []

split_run-total_example :
    let range = shown_as displaced three_items in
    (split_run displaced three_items (full_channel ∷ roomy_channel ∷ [])
      ≡ some ([], sent (full_channel ∷ []) roomy_channel [] range))
    × (items_of (take (space_avail roomy_channel) range)
        ≡ take (space_avail roomy_channel) (items_of three_items))
    × (total (sent (full_channel ∷ []) roomy_channel [] range) + (3 - space_avail roomy_channel)
        ≡ 5)
unfolding space_avail
split_run-total_example =
    split_run-total (full_channel ∷ []) roomy_channel [] displaced three_items (refl, tt)
      (omega arith) refl

split_run_test :
    split_run displaced three_items (full_channel ∷ roomy_channel ∷ [])
    ≡ some ([], full_channel ∷ record { items = (2, 0) ∷ (5, 9) ∷ (6, 0) ∷ []; capacity = 3 } ∷ [])
unfolding split_run send_range shown_as space_avail
split_run_test = refl

join_run_test :
    join_run ((9, 0) ∷ []) (record { items = []; capacity = 1 } ∷ roomy_channel ∷ [])
    ≡ some (
      (9, 0) ∷ (2, 0) ∷ [],
      record { items = []; capacity = 1 } ∷ record { items = []; capacity = 3 } ∷ [],
    )
unfolding join_run get_item
join_run_test = refl
