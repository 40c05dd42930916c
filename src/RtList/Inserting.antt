-- ===== src/RtList/Inserting.antt =====
-- rtList_InsertBefore and rtList_InsertAfter.
use rbus.Base.{
  ℕ, ◌+◌, ◌≤◌, ◌≡◌, refl, sym, ap, ◌∙◌, Bool, true, false, Option, none, some, List, [], ◌∷◌, ◌++◌,
  ◌==◌, if◌then◌else◌, length-append, arith,
}
use rbus.RtList.{
  RtList, update, update_at, points_to, get_free_item, put_data, insert_before, insert_taken_before,
  reuse_data,
}
use rbus.RtList.Contents.{Represents, contents}
use rbus.RtList.Links.{
  count, first, final, Nexts, Prevs, count-append, count-insert, count-head, absent-tail,
  final-append, Nexts-append, Nexts-split, Prevs-append, Prevs-split, Nexts-update, Prevs-update,
  update-same, Nexts-update_at, Outside-final, Nexts-final, update_at-final,
}
use rbus.RtList.Taking.{
  IsTaken, get_free_item-IsTaken, once-new, allocated-new, contents-put, put_data-item,
}

-- The list with a new item, whose fields are linked as the model of the code says; `front` and `back`
-- are those behind the insertion.
abbrev pub inserted :
    RtList → ℕ → ℕ → Option ℕ → Option ℕ → (ℕ → Option ℕ) → (ℕ → Option ℕ) → RtList
inserted s item value front back next prev = record s {
  data_of = put_data s.data_of item value;
  front = front;
  back = back;
  next = next;
  prev = prev;
  size = s.size + 1;
}

inserted-Represents :
    (list s : RtList) (item value : ℕ) (front back : Option ℕ) (next prev : ℕ → Option ℕ)
    (l k free : List ℕ)
    → IsTaken list item s (l ++ k) free
    → front ≡ first (l ++ item ∷ k) none
    → back ≡ final none (l ++ item ∷ k)
    → Nexts next (l ++ item ∷ k) none
    → Prevs prev none (l ++ item ∷ k)
    → Nexts next free none
    → Represents (inserted s item value front back next prev) (l ++ item ∷ k) free
inserted-Represents list s item value front back next prev l k free t q b n p f = record {
  front = q;
  back = b;
  nexts = n;
  prevs = p;
  free_front = t.0.free_front;
  free_nexts = f;
  once =
      λ x. omega (arith, count-insert x item l k, once-new x item (l ++ k) free t.1 (t.0.once x));
  allocated = λ x h. omega (
    arith,
    count-insert x item l k,
    allocated-new x item s.used (l ++ k) free t.2 h (t.0.allocated x h),
  );
  size = omega (arith, t.0.size, length-append l (item ∷ k), length-append l k);
}

-- Counts of the items around the new one.
count-around :
    (x at : ℕ) (l k free : List ℕ)
    → count x (l ++ at ∷ k) + count x free ≤ 1
    → count x l + count x (at ∷ k) ≤ 1
count-around x at l k free o = omega (arith, o, count-append x l (at ∷ k))

Nexts-before :
    (f : ℕ → Option ℕ) (item at : ℕ) (l k : List ℕ)
    → ((x : ℕ) → count x l + count x (at ∷ k) ≤ 1)
    → count item l ≡ 0
    → count item (at ∷ k) ≡ 0
    → Nexts f l (some at)
    → Nexts f (at ∷ k) none
    → Nexts
        (update_at (update f item (some at)) (final none l) (some item))
        (l ++ item ∷ at ∷ k)
        none
Nexts-before f item at l k u c c' h i =
    Nexts-append _ l (item ∷ at ∷ k) none
      (Nexts-final (update f item (some at)) l (some at) (some item) (λ x. omega (arith, u x))
        (Nexts-update f item (some at) l (some at) c h))
      (
        update_at-final (update f item (some at)) none l (some item) item refl c
            ∙ update-same f item (some at),
        Nexts-update_at _ (final none l) (some item) (at ∷ k) none
            (Outside-final none l (at ∷ k) tt u) (Nexts-update f item (some at) (at ∷ k) none c' i),
      )

Prevs-before :
    (f : ℕ → Option ℕ) (item at : ℕ) (l k : List ℕ)
    → ((x : ℕ) → count x l + count x (at ∷ k) ≤ 1)
    → count item l ≡ 0
    → count item (at ∷ k) ≡ 0
    → Prevs f none l
    → Prevs f (final none l) (at ∷ k)
    → Prevs (update (update f item (f at)) at (some item)) none (l ++ item ∷ at ∷ k)
Prevs-before f item at l k u c c' h i =
    let (e, ck) = absent-tail item at k c' in
    let d : (item == at) ≡ false = ground arith in
    let g = update f item (f at) in
    let a : count at l ≡ 0 = omega (arith, u at, count-head at k) in
    let ak : count at k ≡ 0 = omega (arith, u at, count-head at k) in
    Prevs-append _ none l (item ∷ at ∷ k)
      (Prevs-update g at (some item) none l a (Prevs-update f item (f at) none l c h))
      (
        rw d (update-same f item (f at) ∙ i.0),
        (
          update-same g at (some item),
          Prevs-update g at (some item) (some at) k ak
              (Prevs-update f item (f at) (some at) k ck i.1),
        ),
      )

pub if_true : (b : Bool) (x y : Option (ℕ × RtList)) → b ≡ true → (if b then x else y) ≡ x
if_true b x y e = rw e refl

pub if_false : (b : Bool) (x y : Option (ℕ × RtList)) → b ≡ false → (if b then x else y) ≡ y
if_false b x y e = rw e refl

pub final-some : (b : ℕ) (l : List ℕ) → (c : ℕ) × (final (some b) l ≡ some c)
final-some b [] = (b, refl)
final-some b (c ∷ l) = final-some c l

-- An insertion: it gives a list with a new item that has the data, between the items `l` and `k`, which
-- keep theirs.
abbrev pub Inserts : RtList → ℕ → List ℕ → List ℕ → Option (ℕ × RtList) → Type 0
Inserts list value l k result =
    (item : ℕ) × (list' : RtList) × (free : List ℕ) × (result ≡ some (item, list'))
    × Represents list' (l ++ item ∷ k) free
    × (contents list' (l ++ k) ≡ contents list (l ++ k))
    × (list'.data_of item ≡ value)

pub inserted-Inserts :
    (list s : RtList) (item value : ℕ) (front back : Option ℕ) (next prev : ℕ → Option ℕ)
    (l k free : List ℕ) (result : Option (ℕ × RtList))
    → (value == reuse_data) ≡ false
    → IsTaken list item s (l ++ k) free
    → front ≡ first (l ++ item ∷ k) none
    → back ≡ final none (l ++ item ∷ k)
    → Nexts next (l ++ item ∷ k) none
    → Prevs prev none (l ++ item ∷ k)
    → Nexts next free none
    → result ≡ some (item, inserted s item value front back next prev)
    → Inserts list value l k result
inserted-Inserts list s item value front back next prev l k free result n t q b nx pv f e = (
  item,
  inserted s item value front back next prev,
  free,
  e,
  inserted-Represents list s item value front back next prev l k free t q b nx pv f,
  contents-put s.data_of item value (l ++ k) (omega (arith, t.1)) ∙ t.3,
  put_data-item s.data_of item value n,
)

-- The code of rtList_InsertBefore behind the item that was taken.
placed-before :
    (s : RtList) (item value at : ℕ) (l k : List ℕ)
    → s.front ≡ first (l ++ at ∷ k) none
    → s.prev at ≡ final none l
    → (item == at) ≡ false
    → count at l ≡ 0
    → (front : Option ℕ) × (front ≡ first (l ++ item ∷ at ∷ k) none)
      × (insert_taken_before s item value at
          ≡ some (
            item,
            inserted s item value front s.back
                (update_at (update s.next item (some at)) (final none l) (some item))
                (update (update s.prev item (s.prev at)) at (some item)),
          ))
unfolding insert_taken_before
placed-before s item value at [] k q p d c =
    let t : (at == at) ≡ true = ground arith in
    (some item, refl, if_true _ _ _ (ap (λ (o : Option ℕ). points_to o at) q ∙ t))
placed-before s item value at (b ∷ l) k q p d c =
    let (t, c') = absent-tail at b l c in
    let (a, z) = final-some b l in
    let e : update (update s.prev item (s.prev at)) at (some item) item ≡ some a =
      rw d (update-same s.prev item (s.prev at) ∙ p ∙ z) in
    (s.front, q, if_false _ _ _ (ap (λ (o : Option ℕ). points_to o at) q ∙ t) ∙ rw (e, z) refl)

-- For data that is not rtListReuseData, rtList_InsertBefore puts a new item with this data in front of
-- an item of the list, wherever that stands; the other items keep their data, and all are linked in
-- both directions.
pub insert_before-Represents :
    (list : RtList) (value at : ℕ) (l k free : List ℕ)
    → (value == reuse_data) ≡ false
    → Represents list (l ++ at ∷ k) free
    → Inserts list value l (at ∷ k) (insert_before list value at)
unfolding insert_before
insert_before-Represents list value at l k free n r =
    let (free', t) = get_free_item-IsTaken list (l ++ at ∷ k) free r in
    let item = (get_free_item list).0 in
    let s = (get_free_item list).1 in
    let u : (x : ℕ) → count x l + count x (at ∷ k) ≤ 1 =
      λ x. count-around x at l k free' (t.0.once x) in
    let c : count item l ≡ 0 = omega (arith, t.1, count-append item l (at ∷ k)) in
    let c' : count item (at ∷ k) ≡ 0 = omega (arith, t.1, count-append item l (at ∷ k)) in
    let h = Nexts-split s.next l (at ∷ k) none t.0.nexts in
    let i = Prevs-split s.prev none l (at ∷ k) t.0.prevs in
    let nx = Nexts-before s.next item at l k u c c' h.0 h.1 in
    let pv = Prevs-before s.prev item at l k u c c' i.0 i.1 in
    let (e, ck) = absent-tail item at k c' in
    let d : (item == at) ≡ false = ground arith in
    let a : count at l ≡ 0 = omega (arith, u at, count-head at k) in
    let (front, q, z) = placed-before s item value at l k t.0.front i.1.0 d a in
    let b = t.0.back ∙ final-append none l (at ∷ k) ∙ sym (final-append none l (item ∷ at ∷ k)) in
    let f = Nexts-update s.next item (some at) free' none (omega (arith, t.1)) t.0.free_nexts in
    let o =
      Outside-final none l free' tt (λ x. omega (arith, t.0.once x, count-append x l (at ∷ k))) in
    inserted-Inserts list s item value front s.back _ _ l (at ∷ k) free' _ n t q b nx pv
      (Nexts-update_at _ (final none l) (some item) free' none o f) z
