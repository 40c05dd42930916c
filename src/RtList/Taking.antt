-- ===== src/RtList/Taking.antt =====
-- rtList_GetFreeItem, and the item that it gives.
use mathlib.Core.Path.{subst}
use rbus.Base.{
  ℕ, ◌+◌, ◌≤◌, ◌<◌, ◌≡◌, ◌⊎◌, refl, sym, true, false, Option, none, List, [], ◌∷◌, ◌==◌, arith,
  Bool-cases, inl, inr, map, ltb, if-elim,
}
use rbus.RtList.{RtList, take_free, get_free_item, put_data, reuse_data}
use rbus.RtList.Contents.{Represents, contents, contents-update}
use rbus.RtList.Links.{count, first, count-head, count-tail-le, update-same}

-- An item in neither list, for the list that it was taken from.
abbrev pub IsTaken : RtList → ℕ → RtList → List ℕ → List ℕ → Type 0
IsTaken list item list' l free =
    Represents list' l free
    × (count item l + count item free ≡ 0)
    × (item < list'.used)
    × (contents list' l ≡ contents list l)

take_free-IsTaken :
    (list : RtList) (l free : List ℕ)
    → Represents list l free
    → (free' : List ℕ) × IsTaken list
        (take_free list (first free none)).0
        (take_free list (first free none)).1
        l
        free'
take_free-IsTaken list l [] r =
    let c = r.allocated list.used (omega arith) in
    (
      [],
      (
        record {
          front = r.front;
          back = r.back;
          nexts = r.nexts;
          prevs = r.prevs;
          free_front = r.free_front;
          free_nexts = r.free_nexts;
          once = r.once;
          allocated = λ x h. r.allocated x (omega (arith, h));
          size = r.size;
        },
        c,
        omega arith,
        contents-update list.data_of list.used 0 l (omega (arith, c)),
      ),
    )
take_free-IsTaken list l (f ∷ free) r =
    let c = r.once f in
    let h = count-head f free in
    (
      free,
      (
        record {
          front = r.front;
          back = r.back;
          nexts = r.nexts;
          prevs = r.prevs;
          free_front = r.free_nexts.0;
          free_nexts = r.free_nexts.1;
          once = λ x. omega (arith, r.once x, count-tail-le x f free);
          allocated = λ x h. omega (arith, r.allocated x h, count-tail-le x f free);
          size = r.size;
        },
        omega (arith, c, h),
        below-used (Bool-cases (ltb f list.used)),
        refl,
      ),
    )
  where
    below-used : ((ltb f list.used ≡ true) ⊎ (ltb f list.used ≡ false)) → f < list.used
    below-used (inl t) = ground arith
    below-used (inr t) =
        let g : list.used ≤ f = ground arith in
        absurd (omega (arith, r.allocated f g, count-head f free))

pub get_free_item-IsTaken :
    (list : RtList) (l free : List ℕ)
    → Represents list l free
    → (free' : List ℕ) × IsTaken list (get_free_item list).0 (get_free_item list).1 l free'
unfolding get_free_item
get_free_item-IsTaken list l free r =
    subst
      (λ (o : Option ℕ).
        (free' : List ℕ) × IsTaken list (take_free list o).0 (take_free list o).1 l free')
      (sym r.free_front) (take_free-IsTaken list l free r)

-- A new item in the list, at any place.
pub once-new :
    (x item : ℕ) (l free : List ℕ)
    → count item l + count item free ≡ 0
    → count x l + count x free ≤ 1
    → count x (item ∷ l) + count x free ≤ 1
unfolding count
once-new x item l free c o = elim (Bool-cases (item == x)) [
  | inl t ↦ let e : item ≡ x = ground arith in let c' = rw e at c in rw t (omega (arith, c'))
  | inr t ↦ rw t (omega (arith, o))
]

pub allocated-new :
    (x item used : ℕ) (l free : List ℕ)
    → item < used
    → used ≤ x
    → count x l + count x free ≡ 0
    → count x (item ∷ l) + count x free ≡ 0
unfolding count
allocated-new x item used l free i h o =
    let t : (item == x) ≡ false = ground arith in rw t (omega (arith, o))

pub contents-put :
    (f : ℕ → ℕ) (item value : ℕ) (l : List ℕ)
    → count item l ≡ 0
    → map (put_data f item value) l ≡ map f l
contents-put f item value l c =
    if-elim (λ (g : ℕ → ℕ). map g l ≡ map f l) (value == reuse_data) _ _ (λ e. refl)
      (λ e. contents-update f item value l c)

pub put_data-item :
    (f : ℕ → ℕ) (item value : ℕ)
    → (value == reuse_data) ≡ false
    → put_data f item value item ≡ value
put_data-item f item value n = rw n (update-same f item value)
