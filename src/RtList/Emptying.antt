-- ===== src/RtList/Emptying.antt =====
-- rtList_RemoveAllItems.
use rbus.Base.{
  ℕ, ◌+◌, ◌≤◌, ◌≡◌, refl, ap, ap₂, ◌∙◌, Bool, Option, none, some, List, [], ◌∷◌, ◌==◌, length,
  arith, not, ◌&&◌, if-elim,
}
use rbus.RtList.{RtList, set_free_item, destroy_data, free_items, remove_all_items}
use rbus.RtList.Contents.{Represents}
use rbus.RtList.Links.{count, first, Nexts, count-head, Nexts-update, update-same}

-- The free items once those of the list are put in front of them one by one.
abbrev pub move_all : List ℕ → List ℕ → List ℕ
move_all [] free = free
move_all (a ∷ l) free = move_all l (a ∷ free)

-- What the loop needs of the list: items that are linked forwards, and free ones.
abbrev Loose : RtList → List ℕ → List ℕ → Type 0
Loose list l free =
    Nexts list.next l none
    × (list.free ≡ first free none)
    × Nexts list.next free none
    × ((x : ℕ) → count x l + count x free ≤ 1)
    × ((x : ℕ) → list.used ≤ x → count x l + count x free ≡ 0)

count-shift :
    (x a : ℕ) (l free : List ℕ) → count x l + count x (a ∷ free) ≡ count x (a ∷ l) + count x free
unfolding count
count-shift x a l free = omega arith

destroy_data-Loose :
    (list : RtList) (a : ℕ) (has_destroyer : Bool) (l free : List ℕ)
    → Loose list l free
    → Loose (destroy_data list a has_destroyer) l free
      × ((destroy_data list a has_destroyer).next ≡ list.next)
destroy_data-Loose list a has_destroyer l free d =
    if-elim (λ s. Loose s l free × (s.next ≡ list.next))
      (has_destroyer && not (list.data_of a == 0)) _ _ (λ e. (d, refl)) (λ e. (d, refl))

set_free_item-Loose :
    (list : RtList) (a : ℕ) (l free : List ℕ)
    → Loose list (a ∷ l) free
    → Loose (set_free_item list a) l (a ∷ free)
unfolding set_free_item
set_free_item-Loose list a l free d =
    let c : count a l ≡ 0 = omega (arith, d.3 a, count-head a l) in
    let cf : count a free ≡ 0 = omega (arith, d.3 a, count-head a l) in
    (
      Nexts-update list.next a list.free l none c d.0.1,
      refl,
      (
        update-same list.next a list.free ∙ d.1,
        Nexts-update list.next a list.free free none cf d.2,
      ),
      (λ x. omega (arith, count-shift x a l free, d.3 x)),
      (λ x h. omega (arith, count-shift x a l free, d.4 x h)),
    )

free_items-Loose :
    (list : RtList) (l free : List ℕ) (has_destroyer : Bool)
    → Loose list l free
    → (list' : RtList) × (free_items list (length l) (first l none) has_destroyer ≡ some list')
      × Loose list' [] (move_all l free)
unfolding free_items
free_items-Loose list [] free has_destroyer d = (list, refl, d)
free_items-Loose list (a ∷ l) free has_destroyer d =
    let d' = destroy_data-Loose list a has_destroyer (a ∷ l) free d in
    let s = set_free_item (destroy_data list a has_destroyer) a in
    let t = set_free_item-Loose (destroy_data list a has_destroyer) a l free d'.0 in
    let (list', e, r) = free_items-Loose s l (a ∷ free) has_destroyer t in (list', rw d.0.0 e, r)

-- rtList_RemoveAllItems ends, and leaves no item in the list and all of them, from the last one, in
-- front of the free ones.
pub remove_all_items-Represents :
    (list : RtList) (l free : List ℕ) (has_destroyer : Bool)
    → Represents list l free
    → (list' : RtList) × (remove_all_items list has_destroyer ≡ some list')
      × Represents list' [] (move_all l free)
unfolding remove_all_items
remove_all_items-Represents list l free has_destroyer r =
    let d : Loose list l free = (r.nexts, r.free_front, r.free_nexts, r.once, r.allocated) in
    let (s, e, d') = free_items-Loose list l free has_destroyer d in
    (
      record s { size = 0; front = none; back = none },
      ap finish
          (ap₂ (λ (n : ℕ) (p : Option ℕ). free_items list n p has_destroyer) r.size r.front ∙ e),
      record {
        front = refl;
        back = refl;
        nexts = tt;
        prevs = tt;
        free_front = d'.1;
        free_nexts = d'.2;
        once = d'.3;
        allocated = d'.4;
        size = refl;
      },
    )
  where
    finish : Option RtList → Option RtList
    finish none = none
    finish (some l) = some (record l { size = 0; front = none; back = none })
