-- ===== src/RtList/Tests.antt =====
-- Lists at concrete items, and the theorems at one of them.
use rbus.Base.{ℕ, ◌≡◌, ◌⊎◌, refl, Bool, true, false, some, List, [], ◌∷◌, ◌++◌, ◌==◌, arith}
use rbus.RtList.{
  RtList, create, push_back, push_front, get_free_item, remove_item, set_free_item, unlink,
  insert_before, insert_taken_before, insert_after, insert_taken_after, remove_first,
}
use rbus.RtList.Contents.{Represents, contents}
use rbus.RtList.Links.{count}
use rbus.RtList.Removing.{remove_item-Represents}
use rbus.RtList.Inserting.{Inserts, insert_before-Represents}
use rbus.RtList.Behind.{insert_after-Represents}
use rbus.RtList.Runs.{
  Call, pushes_back, inserts_before, inserts_after, removes, State, run, ideal, ideal_run, split_at,
  Holds,
}
use rbus.RtList.Refinement.{run-ideal_run}
use rbus.RtList.Walking.{Fails, Found, remove_first-Represents}

-- Two items, the addresses 0 and 1, with the data 7 and 8.
abbrev two : RtList
two = (push_back (push_back create 7).1 8).1

two-Represents : Represents two (0 ∷ 1 ∷ []) []
unfolding push_back push_front get_free_item count remove_item set_free_item unlink insert_before
    insert_taken_before insert_after insert_taken_after
two-Represents = record {
  front = refl;
  back = refl;
  nexts = (refl, (refl, tt));
  prevs = (refl, (refl, tt));
  free_front = refl;
  free_nexts = tt;
  once = λ x. ground arith;
  allocated = λ x h. ground arith;
  size = refl;
}

-- A removed item is used again for the next one, and rtListReuseData keeps its data.
recycled : contents (push_back (remove_item two 0 false) 1).1 (1 ∷ 0 ∷ []) ≡ 8 ∷ 7 ∷ []
unfolding push_back push_front get_free_item count remove_item set_free_item unlink insert_before
    insert_taken_before insert_after insert_taken_after
recycled = refl

remove_item-Represents_example :
    Represents (remove_item two 0 true) (1 ∷ []) (0 ∷ [])
    × (contents (remove_item two 0 true) (1 ∷ []) ≡ contents two (1 ∷ []))
remove_item-Represents_example = remove_item-Represents two 0 [] (1 ∷ []) [] true two-Represents

insert_before-Represents_example : Inserts two 9 (0 ∷ []) (1 ∷ []) (insert_before two 9 1)
insert_before-Represents_example =
    insert_before-Represents two 9 1 (0 ∷ []) [] [] refl two-Represents

insert_after-Represents_example : Inserts two 9 (0 ∷ []) (1 ∷ []) (insert_after two 9 0)
insert_after-Represents_example =
    insert_after-Represents two 9 0 (0 ∷ []) (1 ∷ []) [] refl refl two-Represents

abbrev is_eight : ℕ → Bool
is_eight value = value == 8

remove_first-Represents_example :
    (Fails is_eight two (0 ∷ 1 ∷ []) × (remove_first is_eight two true ≡ some (false, two)))
    ⊎ ((found : Found is_eight two (0 ∷ 1 ∷ [])) × (list' : RtList) × (remove_first is_eight two
            true
          ≡ some (true, list'))
        × Represents list' (found.ahead ++ found.behind) (found.item ∷ [])
        × (contents list' (found.ahead ++ found.behind)
            ≡ contents two (found.ahead ++ found.behind)))
remove_first-Represents_example =
    remove_first-Represents is_eight two (0 ∷ 1 ∷ []) [] true two-Represents

-- 7 8, then 9 in front of 8, 5 behind 9, and without 7.
abbrev calls : List Call
calls = pushes_back 7 ∷ pushes_back 8 ∷ inserts_before 1 9 ∷ inserts_after 1 5 ∷ removes 0 true ∷ []

calls_data : ideal_run [] calls ≡ 9 ∷ 5 ∷ 8 ∷ []
unfolding ideal split_at
calls_data = refl

run-ideal_run_example :
    (s : State) × (run (create, []) calls ≡ some s) × Holds s (ideal_run [] calls)
run-ideal_run_example = run-ideal_run calls (refl, (refl, (refl, (refl, (tt, tt)))))
