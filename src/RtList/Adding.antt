-- ===== src/RtList/Adding.antt =====
-- rtList_PushFront and rtList_PushBack.
use mathlib.Core.List.{map-append}
use mathlib.Core.Path.{subst}
use rbus.Base.{
  ℕ, ◌+◌, ◌≤◌, ◌≡◌, refl, sym, ap, ◌∙◌, ap₂, false, Option, none, some, List, [], ◌∷◌, ◌++◌, ◌==◌,
  length-append, arith,
}
use rbus.RtList.{
  RtList, update, update_at, get_free_item, or_item, push_front, push_back, reuse_data,
}
use rbus.RtList.Contents.{Represents, contents}
use rbus.RtList.Links.{
  count, first, final, Nexts, Prevs, count-append, final-append, Nexts-append, Prevs-append,
  Nexts-update, Prevs-update, update-same, Nexts-update_at, Outside-final, Nexts-final, Prevs-first,
  update_at-final, update_at-first,
}
use rbus.RtList.Taking.{get_free_item-IsTaken, once-new, allocated-new, contents-put, put_data-item}

or_item-final : (item b : ℕ) (l : List ℕ) → or_item (final (some b) l) item ≡ final (some b) l
or_item-final item b [] = refl
or_item-final item b (d ∷ l) = or_item-final item d l

back_of-new : (item : ℕ) (l : List ℕ) → or_item (final none l) item ≡ final (some item) l
back_of-new item [] = refl
back_of-new item (b ∷ l) = or_item-final item b l

front_of-new : (item : ℕ) (l : List ℕ) → or_item (first l none) item ≡ first (l ++ item ∷ []) none
front_of-new item [] = refl
front_of-new item (b ∷ l) = refl

Prevs-front :
    (f : ℕ → Option ℕ) (o : Option ℕ) (item : ℕ) (l : List ℕ)
    → o ≡ first l none
    → count item l ≡ 0
    → ((x : ℕ) → count x l ≤ 1)
    → Prevs f none l
    → Prevs (update_at (update f item none) o (some item)) none (item ∷ l)
Prevs-front f o item l e c u h =
    subst (λ (p : Option ℕ). Prevs (update_at (update f item none) p (some item)) none (item ∷ l))
      (sym e)
      (
        update_at-first (update f item none) l (some item) item c ∙ update-same f item none,
        Prevs-first (update f item none) l none (some item) u (Prevs-update f item none none l c h),
      )

Nexts-back :
    (f : ℕ → Option ℕ) (o : Option ℕ) (item : ℕ) (l : List ℕ)
    → o ≡ final none l
    → count item l ≡ 0
    → ((x : ℕ) → count x l ≤ 1)
    → Nexts f l none
    → Nexts (update_at (update f item none) o (some item)) (l ++ item ∷ []) none
Nexts-back f o item l e c u h = rw e (
    Nexts-append _ l (item ∷ []) none
      (Nexts-final (update f item none) l none (some item) u (Nexts-update f item none l none c h))
      (
        update_at-final (update f item none) none l (some item) item refl c
            ∙ update-same f item none,
        tt,
      ))

Prevs-back :
    (f : ℕ → Option ℕ) (o : Option ℕ) (item : ℕ) (l : List ℕ)
    → o ≡ final none l
    → count item l ≡ 0
    → Prevs f none l
    → Prevs (update f item o) none (l ++ item ∷ [])
Prevs-back f o item l e c h =
    Prevs-append _ none l (item ∷ []) (Prevs-update f item o none l c h)
      (update-same f item o ∙ e, tt)

free-back :
    (f : ℕ → Option ℕ) (o : Option ℕ) (item : ℕ) (l free : List ℕ)
    → o ≡ final none l
    → count item free ≡ 0
    → ((x : ℕ) → count x l + count x free ≤ 1)
    → Nexts f free none
    → Nexts (update_at (update f item none) o (some item)) free none
free-back f o item l free e c u h = rw e (
    Nexts-update_at _ (final none l) (some item) free none (Outside-final none l free tt u)
      (Nexts-update f item none free none c h))

count-snoc : (x item : ℕ) (l : List ℕ) → count x (l ++ item ∷ []) ≡ count x (item ∷ l)
unfolding count
count-snoc x item l = omega (arith, count-append x l (item ∷ []))

-- For data that is not rtListReuseData, rtList_PushFront puts a new item with this data in front of the
-- items of the list, which keep their data and are linked with it in both directions.
pub push_front-Represents :
    (list : RtList) (value : ℕ) (l free : List ℕ)
    → (value == reuse_data) ≡ false
    → Represents list l free
    → (free' : List ℕ) × Represents (push_front list value).1 ((push_front list value).0 ∷ l) free'
      × (contents (push_front list value).1 ((push_front list value).0 ∷ l)
          ≡ value ∷ contents list l)
unfolding push_front
push_front-Represents list value l free n r =
    let (free', t) = get_free_item-IsTaken list l free r in
    let item = (get_free_item list).0 in
    let s = (get_free_item list).1 in
    let r' = t.0 in
    let c : count item l ≡ 0 = omega (arith, t.1) in
    let cf : count item free' ≡ 0 = omega (arith, t.1) in
    (
      free',
      record {
        front = refl;
        back = ap (λ (o : Option ℕ). or_item o item) r'.back ∙ back_of-new item l;
        nexts = (
          update-same s.next item s.front ∙ r'.front,
          Nexts-update s.next item s.front l none c r'.nexts,
        );
        prevs =
            Prevs-front s.prev s.front item l r'.front c (λ x. omega (arith, r'.once x)) r'.prevs;
        free_front = r'.free_front;
        free_nexts = Nexts-update s.next item s.front free' none cf r'.free_nexts;
        once = λ x. once-new x item l free' t.1 (r'.once x);
        allocated = λ x h. allocated-new x item s.used l free' t.2 h (r'.allocated x h);
        size = omega (arith, r'.size);
      },
      ap₂ (λ (d : ℕ) (ds : List ℕ). d ∷ ds) (put_data-item s.data_of item value n)
          (contents-put s.data_of item value l c ∙ t.3),
    )

-- For data that is not rtListReuseData, rtList_PushBack puts a new item with this data behind the items
-- of the list, which keep their data and are linked with it in both directions.
pub push_back-Represents :
    (list : RtList) (value : ℕ) (l free : List ℕ)
    → (value == reuse_data) ≡ false
    → Represents list l free
    → (free' : List ℕ) × Represents
        (push_back list value).1
        (l ++ (push_back list value).0 ∷ [])
        free'
      × (contents (push_back list value).1 (l ++ (push_back list value).0 ∷ [])
          ≡ contents list l ++ value ∷ [])
unfolding push_back
push_back-Represents list value l free n r =
    let (free', t) = get_free_item-IsTaken list l free r in
    let item = (get_free_item list).0 in
    let s = (get_free_item list).1 in
    let r' = t.0 in
    let c : count item l ≡ 0 = omega (arith, t.1) in
    let cf : count item free' ≡ 0 = omega (arith, t.1) in
    (
      free',
      record {
        front = ap (λ (o : Option ℕ). or_item o item) r'.front ∙ front_of-new item l;
        back = sym (final-append none l (item ∷ []));
        nexts = Nexts-back s.next s.back item l r'.back c (λ x. omega (arith, r'.once x)) r'.nexts;
        prevs = Prevs-back s.prev s.back item l r'.back c r'.prevs;
        free_front = r'.free_front;
        free_nexts = free-back s.next s.back item l free' r'.back cf (λ x. r'.once x) r'.free_nexts;
        once = λ x. omega (arith, count-snoc x item l, once-new x item l free' t.1 (r'.once x));
        allocated = λ x h. omega (
          arith,
          count-snoc x item l,
          allocated-new x item s.used l free' t.2 h (r'.allocated x h),
        );
        size = omega (arith, r'.size, length-append l (item ∷ []));
      },
      map-append _ l (item ∷ [])
          ∙ ap₂ (λ (a b : List ℕ). a ++ b) (contents-put s.data_of item value l c ∙ t.3)
              (ap (λ (d : ℕ). d ∷ []) (put_data-item s.data_of item value n)),
    )
