-- ===== src/Session/Tests.antt =====
-- session_manager.c on concrete calls.
use rbus.Base.{◌+◌, ◌≤◌, ◌≡◌, ◌≢◌, ◌⊎◌, refl, none, some, List, [], ◌∷◌, arith}
use rbus.Session.{start, handle, Call, run}
use rbus.Session.Exclusion.{granted, grants, ends, handle_lem, run-grants, run-alternates}

handle_lem_example :
    let (s', r) = handle start "req_new_s" none in
    (s'.counter ≡ start.counter + granted r)
    × (granted r ≡ 1 → (start.current ≡ 0) × (s'.current ≡ 1))
    × (s'.current ≢ start.current
        → (granted r ≡ 1) ⊎ (s'.current ≡ 0) × (none ≡ some start.current))
    × (start.current ≤ 1 → s'.current ≤ 1)
handle_lem_example = handle_lem start "req_new_s" none

abbrev calls : List Call
calls = ("req_new_s", none) ∷ ("req_new_s", none) ∷ ("end_of_s", some 1) ∷ ("req_new_s", none) ∷ []

run-grants_example :
    let (s', replies) = run start calls in
    (s'.counter ≡ start.counter + grants replies) × (s'.current ≤ 1)
run-grants_example = run-grants start calls (omega arith)

two_grants : (run start calls).0 ≡ record { counter = 2; current = 1 }
unfolding run handle
two_grants = refl

run-alternates_example :
    let (s', replies) = run start calls in
    (start.current + grants replies ≡ s'.current + ends replies) × (s'.current ≤ 1)
run-alternates_example = run-alternates start calls (omega arith)
