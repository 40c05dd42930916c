-- ===== src/Filter/Apply.antt =====
-- What a filter says of a value.
use rbus.Base.{
  ℕ, zero, suc, ◌<◌, ◌≡◌, refl, ap, Bool, true, false, not, Option, ◌==◌, if◌then◌else◌, arith,
}
use rbus.Outcome.{Outcome, done, refused, fault, exhausted, ◌>>=◌}
use rbus.Value.{Value}
use rbus.Value.Compare.{Sign, Machine, compare}
use rbus.Filter.{
  Filter, null, relation, logic, apply, holds, combine, greater_than, greater_than_or_equal,
  less_than, less_than_or_equal, equals, not_equals, op_and, op_or, op_not,
}

-- The operator that holds where `op` does not.
abbrev pub dual : ℕ → ℕ
dual op =
    if op == greater_than
    then less_than_or_equal
    else if op == less_than_or_equal
    then greater_than
    else if op == greater_than_or_equal
    then less_than
    else if op == less_than
    then greater_than_or_equal
    else if op == equals
    then not_equals
    else equals

-- The filter without its negations: they are pushed down to the relations.
pub complement : Filter → Filter
complement null = null
complement (relation op v) = relation (dual op) v
complement (logic op l r) =
    if op == op_and
    then logic op_or (complement l) (complement r)
    else if op == op_or
    then logic op_and (complement l) (complement r)
    else l

-- No NULL but the unused side of a NOT, and operators of the enums.
abbrev pub IsProper : Filter → Type 0
IsProper null = ⊥
IsProper (relation op v) = op < 6
IsProper (logic zero l r) = IsProper l × IsProper r
IsProper (logic (suc zero) l r) = IsProper l × IsProper r
IsProper (logic (suc (suc zero)) l r) = IsProper l
IsProper (logic (suc (suc (suc op))) l r) = ⊥

abbrev pub negated : Outcome Bool → Outcome Bool
negated o = o >>= λ b. done (not b)

holds-dual : (op : ℕ) (c : Sign) → op < 6 → holds (dual op) c ≡ not (holds op c)
unfolding holds
holds-dual op c h = ground arith

negated-combine :
    (op op' : ℕ) (a b : Outcome Bool)
    → ((x y : Bool) → combine op' (not x) (not y) ≡ not (combine op x y))
    → (negated a >>= λ x. negated b >>= λ y. done (combine op' x y))
      ≡ negated (a >>= λ x. b >>= λ y. done (combine op x y))
negated-combine op op' (done x) (done y) h = ap done (h x y)
negated-combine op op' (done x) refused h = refl
negated-combine op op' (done x) fault h = refl
negated-combine op op' (done x) exhausted h = refl
negated-combine op op' refused b h = refl
negated-combine op op' fault b h = refl
negated-combine op op' exhausted b h = refl

combine_or : (x y : Bool) → combine op_or (not x) (not y) ≡ not (combine op_and x y)
unfolding combine
combine_or true y = refl
combine_or false y = refl

combine_and : (x y : Bool) → combine op_and (not x) (not y) ≡ not (combine op_or x y)
unfolding combine
combine_and true y = refl
combine_and false y = refl

twice_negated : (o : Outcome Bool) → o ≡ negated (o >>= λ l. done (combine op_not l false))
unfolding combine
twice_negated (done true) = refl
twice_negated (done false) = refl
twice_negated refused = refl
twice_negated fault = refl
twice_negated exhausted = refl

relation_negated :
    (op : ℕ) (c : Outcome Sign)
    → op < 6
    → (c >>= λ s. done (holds (dual op) s)) ≡ negated (c >>= λ s. done (holds op s))
relation_negated op (done s) h = ap done (holds-dual op s h)
relation_negated op refused h = refl
relation_negated op fault h = refl
relation_negated op exhausted h = refl

module _ (m : Machine) where
  -- Take a filter with operators of the enums and no NULL side but the unused one of a NOT. Its
  -- complement accepts exactly the values that it rejects: NOT, AND and OR obey De Morgan's laws,
  -- and each relation has its opposite. The complement fails where the filter fails.
  pub apply-complement :
      (f : Filter) (value : Option Value)
      → IsProper f
      → apply m (complement f) value ≡ negated (apply m f value)
  unfolding apply complement
  apply-complement null value p = absurd p
  apply-complement (relation op v) value p = relation_negated op (compare m value v) p
  apply-complement (logic zero l r) value p =
      rw (apply-complement l value p.0, apply-complement r value p.1)
        (negated-combine op_and op_or (apply m l value) (apply m r value) combine_or)
  apply-complement (logic (suc zero) l r) value p =
      rw (apply-complement l value p.0, apply-complement r value p.1)
        (negated-combine op_or op_and (apply m l value) (apply m r value) combine_and)
  apply-complement (logic (suc (suc zero)) l r) value p = twice_negated (apply m l value)
  apply-complement (logic (suc (suc (suc op))) l r) value p = absurd p
