-- ===== src/RtList/Behind.antt =====
-- rtList_InsertAfter.
use mathlib.Core.Path.{subst}
use rbus.Base.{
  ℕ, ◌+◌, ◌≤◌, ◌≡◌, refl, sym, ap, ◌∙◌, true, false, Option, none, some, List, [], ◌∷◌, ◌++◌, ◌==◌,
  arith,
}
use rbus.RtList.{
  RtList, update, update_at, points_to, get_free_item, insert_after, insert_taken_after, reuse_data,
}
use rbus.RtList.Contents.{Represents}
use rbus.RtList.Links.{
  count, first, final, Nexts, Prevs, count-append, absent-tail, final-append, Nexts-append,
  Nexts-split, Prevs-append, Prevs-split, Nexts-update, Prevs-update, update-same, Nexts-update_at,
  Prevs-update_at, Outside-first, Outside-final, Nexts-final, Prevs-first, update_at-final,
  update_at-first, points_to-final, Nexts-last, Outside,
}
use rbus.RtList.Taking.{get_free_item-IsTaken}
use rbus.RtList.Inserting.{inserted, Inserts, inserted-Inserts, if_true, if_false}

Nexts-behind :
    (f : ℕ → Option ℕ) (item at : ℕ) (l k : List ℕ)
    → ((x : ℕ) → count x l + count x k ≤ 1)
    → count item l ≡ 0
    → count item k ≡ 0
    → final none l ≡ some at
    → Nexts f l (first k none)
    → Nexts f k none
    → Nexts (update (update f item (f at)) at (some item)) (l ++ item ∷ k) none
Nexts-behind f item at l k u c c' z h i =
    subst
      (λ (o : Option ℕ).
        Nexts (update_at (update f item (f at)) o (some item)) (l ++ item ∷ k) none)
      z
      (Nexts-append _ l (item ∷ k) none
        (Nexts-final (update f item (f at)) l (first k none) (some item) (λ x. omega (arith, u x))
          (Nexts-update f item (f at) l (first k none) c h))
        (
          update_at-final (update f item (f at)) none l (some item) item refl c
              ∙ update-same f item (f at)
              ∙ Nexts-last f l (first k none) at h z,
          Nexts-update_at _ (final none l) (some item) k none (Outside-final none l k tt u)
              (Nexts-update f item (f at) k none c' i),
        ))

Prevs-behind :
    (f : ℕ → Option ℕ) (item at : ℕ) (l k : List ℕ)
    → ((x : ℕ) → count x l + count x k ≤ 1)
    → count item l ≡ 0
    → count item k ≡ 0
    → final none l ≡ some at
    → Prevs f none l
    → Prevs f (final none l) k
    → Prevs (update_at (update f item (some at)) (first k none) (some item)) none (l ++ item ∷ k)
Prevs-behind f item at l k u c c' z h i =
    Prevs-append _ none l (item ∷ k)
      (Prevs-update_at _ (first k none) (some item) none l
        (Outside-first k l (λ x. omega (arith, u x))) (Prevs-update f item (some at) none l c h))
      (
        update_at-first (update f item (some at)) k (some item) item c'
            ∙ update-same f item (some at)
            ∙ sym z,
        Prevs-first (update f item (some at)) k (final none l) (some item) (λ x. omega (arith, u x))
            (Prevs-update f item (some at) (final none l) k c' i),
      )

back_of-last :
    (at item c : ℕ) (k : List ℕ) → count at (c ∷ k) ≡ 0 → points_to (final (some c) k) at ≡ false
back_of-last at item c k h =
    let (t, c') = absent-tail at c k h in points_to-final at (some c) k t c'

last-differs :
    (item at : ℕ) (l : List ℕ) → count item l ≡ 0 → final none l ≡ some at → (item == at) ≡ false
last-differs item at [] c z = cc
last-differs item at (b ∷ l) c z =
    let (t, c') = absent-tail item b l c in
    let p = points_to-final item (some b) l t c' in
    let p' : (at == item) ≡ false = sym (ap (λ (o : Option ℕ). points_to o item) z) ∙ p in
    ground arith

-- The code of rtList_InsertAfter behind the item that was taken.
placed-behind :
    (s : RtList) (item value at : ℕ) (l k : List ℕ)
    → s.back ≡ final (some at) k
    → s.next at ≡ first k none
    → (item == at) ≡ false
    → count at k ≡ 0
    → (back : Option ℕ) × (back ≡ final (some item) k)
      × (insert_taken_after s item value at
          ≡ some (
            item,
            inserted s item value s.front back
                (update (update s.next item (s.next at)) at (some item))
                (update_at (update s.prev item (some at)) (first k none) (some item)),
          ))
unfolding insert_taken_after
placed-behind s item value at l [] q p d c =
    let t : (at == at) ≡ true = ground arith in
    (some item, refl, if_true _ _ _ (ap (λ (o : Option ℕ). points_to o at) q ∙ t))
placed-behind s item value at l (b ∷ k) q p d c =
    let t = back_of-last at item b k c in
    let e : update (update s.next item (s.next at)) at (some item) item ≡ some b =
      rw d (update-same s.next item (s.next at) ∙ p) in
    (s.back, q, if_false _ _ _ (ap (λ (o : Option ℕ). points_to o at) q ∙ t) ∙ rw e refl)

-- For data that is not rtListReuseData, rtList_InsertAfter puts a new item with this data behind an
-- item of the list, the last one of `l`, wherever that stands; the other items keep their data, and all
-- are linked in both directions.
pub insert_after-Represents :
    (list : RtList) (value at : ℕ) (l k free : List ℕ)
    → (value == reuse_data) ≡ false
    → final none l ≡ some at
    → Represents list (l ++ k) free
    → Inserts list value l k (insert_after list value at)
unfolding insert_after
insert_after-Represents list value at l k free n z r =
    let (free', t) = get_free_item-IsTaken list (l ++ k) free r in
    let item = (get_free_item list).0 in
    let s = (get_free_item list).1 in
    let u : (x : ℕ) → count x l + count x k ≤ 1 =
      λ x. omega (arith, t.0.once x, count-append x l k) in
    let c : count item l ≡ 0 = omega (arith, t.1, count-append item l k) in
    let c' : count item k ≡ 0 = omega (arith, t.1, count-append item l k) in
    let h = Nexts-split s.next l k none t.0.nexts in
    let i = Prevs-split s.prev none l k t.0.prevs in
    let a : count at k ≡ 0 =
      subst (λ (o : Option ℕ). Outside o k) z (Outside-final none l k tt u) in
    let d : (item == at) ≡ false = last-differs item at l c z in
    let b = t.0.back ∙ final-append none l k ∙ ap (λ (o : Option ℕ). final o k) z in
    let (back, q, e) =
      placed-behind s item value at l k b (Nexts-last s.next l (first k none) at h.0 z) d a in
    let f = Nexts-update s.next item (s.next at) free' none (omega (arith, t.1)) t.0.free_nexts in
    let o : count at free' ≡ 0 =
      subst (λ (p : Option ℕ). Outside p free') z
        (Outside-final none l free' tt (λ x. omega (arith, t.0.once x, count-append x l k))) in
    inserted-Inserts list s item value s.front back _ _ l k free' _ n t
      (t.0.front ∙ first-kept l at item z) (q ∙ sym (final-append none l (item ∷ k)))
      (Nexts-behind s.next item at l k u c c' z h.0 h.1)
      (Prevs-behind s.prev item at l k u c c' z i.0 i.1)
      (Nexts-update _ at (some item) free' none o f) e
  where
    first-kept :
        (l : List ℕ) (at item : ℕ)
        → final none l ≡ some at
        → first (l ++ k) none ≡ first (l ++ item ∷ k) none
    first-kept [] at item z = cc
    first-kept (b ∷ l) at item z = refl
