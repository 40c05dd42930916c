-- ===== src/HashMap/Tests.antt =====
-- Runs of the hash map, and the theorems at concrete inputs.
use native.Mathlib.Nat.{mod-lt}
use rbus.Base.{ℕ, zero, suc, ◌>>=◌, ◌%◌, ◌≡◌, refl, Option, none, some, List, [], ◌∷◌, length}
use rbus.Base.Names.{Name, same}
use rbus.HashMap.{
  HashMap, create, set, get, remove, empty_buckets, bucket_at, update_at, find, overwrite,
  remove_first, push, push_all, push_buckets, resize, make_room, give_room, set_in, remove_in,
}
use rbus.HashMap.Resizing.{InRange}
use rbus.HashMap.Runs.{Call, sets, removes, value_after, run, get-run}

abbrev by_size : ℕ → Name → ℕ
by_size n k = length k % n

by_size-InRange : InRange by_size
by_size-InRange n k h = mod-lt (length k) h

-- The keys of one character below a number, set one after the other.
abbrev sets_below : ℕ → List (Call ℕ)
sets_below zero = []
sets_below (suc n) = sets (n ∷ []) n ∷ sets_below n

abbrev by_char : ℕ → Name → ℕ
by_char n [] = 0
by_char n (c ∷ cs) = c % n

abbrev counts : Option (HashMap ℕ) → Option (ℕ × ℕ)
counts none = none
counts (some m) = some (length m.buckets, m.size)

-- 24 entries are the most that 32 buckets take. Without one of them the map shrinks to 16 buckets,
-- of which 12 entries are the most.
full_test : counts (run by_char create (sets_below 24)) ≡ some (32, 24)
unfolding run set get remove empty_buckets bucket_at update_at find overwrite remove_first push
    push_all push_buckets resize make_room give_room set_in remove_in same
full_test = refl

shrunk_test :
    counts (run by_char create (sets_below 24) >>= (λ m. run by_char m (removes (0 ∷ []) ∷ [])))
    ≡ some (16, 23)
unfolding run set get remove empty_buckets bucket_at update_at find overwrite remove_first push
    push_all push_buckets resize make_room give_room set_in remove_in same
shrunk_test = refl

abbrev a : Name
a = 65 ∷ []

abbrev b : Name
b = 66 ∷ []

abbrev calls : List (Call ℕ)
calls = sets a 1 ∷ sets b 2 ∷ sets a 3 ∷ removes b ∷ []

get-run_example : (m : HashMap ℕ) × (run by_size create calls ≡ some m) × (get by_size m a ≡ some 3)
unfolding value_after same
get-run_example = get-run by_size calls a by_size-InRange
