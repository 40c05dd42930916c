-- ===== src/Filter/Compare.antt =====
-- rbusFilter_Compare: which filters are equal.
use rbus.Base.{◌≡◌, ◌↔◌, refl, true, ◌==◌, arith}
use rbus.Outcome.{Outcome, done, refused, fault, exhausted, ◌>>=◌}
use rbus.Value.Compare.{Sign, less, equal, greater, Machine, compare}
use rbus.Filter.{Filter, null, relation, logic, compare_filters, by_number, or_else}

module _ (m : Machine) where
  -- The same tree with the same operators, over values that compare as equal.
  abbrev pub Matches : Filter → Filter → Type 0
  Matches null null = Unit
  Matches (relation op v) (relation op' w) = (op ≡ op') × (compare m v w ≡ done equal)
  Matches (logic op l r) (logic op' l' r') = (op ≡ op') × Matches l l' × Matches r r'
  Matches _ _ = ⊥

  equal_chain :
      (a b : Outcome Sign)
      → (a >>= λ c. or_else c b) ≡ done equal
      → (a ≡ done equal) × (b ≡ done equal)
  unfolding or_else
  equal_chain (done less) b h = absurd cc
  equal_chain (done equal) b h = (refl, h)
  equal_chain (done greater) b h = absurd cc
  equal_chain refused b h = absurd cc
  equal_chain fault b h = absurd cc
  equal_chain exhausted b h = absurd cc

  compare_filters-Matches : (f g : Filter) → compare_filters m f g ≡ done equal → Matches f g
  unfolding compare_filters by_number
  compare_filters-Matches null null h = tt
  compare_filters-Matches null (relation op w) h = cc
  compare_filters-Matches null (logic op l r) h = cc
  compare_filters-Matches (relation op v) null h = cc
  compare_filters-Matches (relation op v) (relation op' w) h = ground arith
  compare_filters-Matches (relation op v) (logic op' l r) h = cc
  compare_filters-Matches (logic op l r) null h = cc
  compare_filters-Matches (logic op l r) (relation op' w) h = cc
  compare_filters-Matches (logic op l r) (logic op' l' r') h =
      let same : op ≡ op' = ground arith in
      let (a, b) = equal_chain (compare_filters m l l') (compare_filters m r r') (ground arith) in
      (same, compare_filters-Matches l l' a, compare_filters-Matches r r' b)

  Matches-compare_filters : (f g : Filter) → Matches f g → compare_filters m f g ≡ done equal
  unfolding compare_filters or_else
  Matches-compare_filters null null p = refl
  Matches-compare_filters null (relation op w) p = absurd p
  Matches-compare_filters null (logic op l r) p = absurd p
  Matches-compare_filters (relation op v) null p = absurd p
  Matches-compare_filters (relation op v) (relation op' w) p = ground (arith, p.0, p.1)
  Matches-compare_filters (relation op v) (logic op' l r) p = absurd p
  Matches-compare_filters (logic op l r) null p = absurd p
  Matches-compare_filters (logic op l r) (relation op' w) p = absurd p
  Matches-compare_filters (logic op l r) (logic op' l' r') p =
      let a = Matches-compare_filters l l' p.1 in
      let b = Matches-compare_filters r r' p.2 in
      let e : (op == op') ≡ true = ground (arith, p.0) in rw (e, a, b)

  -- Two filters compare as equal exactly if they are the same tree, with the same operators, over
  -- values that compare as equal.
  pub compare_filters_equal : (f g : Filter) → compare_filters m f g ≡ done equal ↔ Matches f g
  compare_filters_equal f g = (compare_filters-Matches f g, Matches-compare_filters f g)
