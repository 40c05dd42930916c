-- ===== src/HashMap/Runs.antt =====
-- Series of calls on a hash map, against the last call for each key.
use rbus.Base.{ℕ, ◌≡◌, refl, Option, none, some, List, [], ◌∷◌, if◌then◌else◌, ◌>>=◌}
use rbus.Base.Names.{Name, same}
use rbus.HashMap.{HashMap, create, set, get, remove}
use rbus.HashMap.Resizing.{InRange}
use rbus.HashMap.Changing.{IsSound}
use rbus.HashMap.Mapping.{set-IsSound, remove-IsSound, create-IsSound}

-- A call of rtHashMap_Set or rtHashMap_Remove.
pub data Call {ℓ} (V : Type ℓ) : Type ℓ where
  sets : Name → V → Call V
  removes : Name → Call V

module _ {ℓ} {V : Type ℓ} where
  -- The value of a key after the calls, from the value in front of them.
  unfoldable pub value_after : List (Call V) → Name → Option V → Option V
  value_after [] k old = old
  value_after (sets k' v ∷ calls) k old = value_after calls k (if same k' k then some v else old)
  value_after (removes k' ∷ calls) k old = value_after calls k (if same k' k then none else old)

module _ {ℓ} {V : Type ℓ} (hash : ℕ → Name → ℕ) where
  unfoldable pub run : HashMap V → List (Call V) → Option (HashMap V)
  run m [] = some m
  run m (sets k v ∷ calls) = do m' ← set hash m k v; run m' calls
  run m (removes k ∷ calls) = do (removed, m') ← remove hash m k; run m' calls

  run-IsSound :
      (m : HashMap V) (calls : List (Call V))
      → InRange hash
      → IsSound hash m
      → (m' : HashMap V) × (run m calls ≡ some m')
        × ((k : Name) → get hash m' k ≡ value_after calls k (get hash m k))
  unfolding run value_after
  run-IsSound m [] r x = (m, refl, λ k. refl)
  run-IsSound m (sets k v ∷ calls) r x =
      let (m₁, e, (x₁, g₁)) = set-IsSound hash m k v r x in
      let (m', e', g') = run-IsSound m₁ calls r x₁ in (m', rw e e', λ k'. rw (g' k', g₁ k') refl)
  run-IsSound m (removes k ∷ calls) r x =
      let (m₁, e, (x₁, g₁)) = remove-IsSound hash m k r x in
      let (m', e', g') = run-IsSound m₁ calls r x₁ in (m', rw e e', λ k'. rw (g' k', g₁ k') refl)

  -- Where the hash is in range, every series of calls on a new map runs without a fault, and then
  -- each key has the value that the last call for it has set, and none if that call removed it or if
  -- there was no call for it.
  pub get-run :
      (calls : List (Call V)) (k : Name)
      → InRange hash
      → (m : HashMap V) × (run create calls ≡ some m) × (get hash m k ≡ value_after calls k none)
  get-run calls k r =
      let c : IsSound hash (create {V = V}) × ((k : Name) → get hash (create {V = V}) k ≡ none) =
        create-IsSound hash r in
      let (m, e, g) = run-IsSound create calls r c.0 in (m, e, rw (g k, c.1 k) refl)
