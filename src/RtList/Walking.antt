-- ===== src/RtList/Walking.antt =====
-- rtList_Find, rtList_RemoveItemWithData and rtList_RemoveItemByCompare.
use mathlib.Core.Path.{subst}
use rbus.Base.{
  ℕ, ◌≡◌, ◌⊎◌, inl, inr, refl, ap, ap₂, ◌∙◌, Bool, true, false, Option, none, some, List, [], ◌∷◌,
  ◌++◌, length, Bool-cases,
}
use rbus.Base.Bytes.{All}
use rbus.RtList.{RtList, search_item, remove_first, remove_item, find, data_at}
use rbus.RtList.Contents.{Represents, contents}
use rbus.RtList.Links.{first, Nexts}
use rbus.RtList.Removing.{remove_item-Represents}

-- No item passes the test.
abbrev pub Fails : (ℕ → Bool) → RtList → List ℕ → Type 0
Fails test list l = All (λ a. test (list.data_of a) ≡ false) l

-- The first item that passes the test, between the others.
pub record Found (test : ℕ → Bool) (list : RtList) (l : List ℕ) : Type 0 where
  pub ahead : List ℕ
  pub item : ℕ
  pub behind : List ℕ
  pub split : l ≡ ahead ++ item ∷ behind
  pub fails : Fails test list ahead
  pub passes : test (list.data_of item) ≡ true

-- The walk from the front reaches the first item that passes, or the end.
search_item-walks :
    (test : ℕ → Bool) (list : RtList) (l : List ℕ)
    → Nexts list.next l none
    → (Fails test list l × (search_item test list (length l) (first l none) ≡ some none))
      ⊎ ((found : Found test list l) × (search_item test list (length l) (first l none)
            ≡ some (some found.item)))
unfolding search_item
search_item-walks test list [] n = inl (tt, refl)
search_item-walks test list (a ∷ l) n =
    step (Bool-cases (test (list.data_of a))) (search_item-walks test list l n.1)
  where
    step :
        ((test (list.data_of a) ≡ true) ⊎ (test (list.data_of a) ≡ false))
        → ((Fails test list l × (search_item test list (length l) (first l none) ≡ some none))
            ⊎ ((found : Found test list l) × (search_item test list (length l) (first l none)
                  ≡ some (some found.item))))
        → (Fails test list (a ∷ l) × (search_item test list (length (a ∷ l)) (some a) ≡ some none))
          ⊎ ((found : Found test list (a ∷ l)) × (search_item test list (length (a ∷ l)) (some a)
                ≡ some (some found.item)))
    step (inl t) r = inr (
      record { ahead = []; item = a; behind = l; split = refl; fails = tt; passes = t },
      rw t refl,
    )
    step (inr t) (inl r) = inl ((t, r.0), rw (t, n.0) r.1)
    step (inr t) (inr (found, e)) = inr (
      record {
        ahead = a ∷ found.ahead;
        item = found.item;
        behind = found.behind;
        split = ap (λ (k : List ℕ). a ∷ k) found.split;
        fails = (t, found.fails);
        passes = found.passes;
      },
      rw (t, n.0) e,
    )

start :
    (test : ℕ → Bool) {list : RtList} {l free : List ℕ} {o : Option (Option ℕ)}
    → Represents list l free
    → search_item test list (length l) (first l none) ≡ o
    → search_item test list list.size list.front ≡ o
start test {list} {l} r e =
    ap₂ (λ (n : ℕ) (p : Option ℕ). search_item test list n p) r.size r.front ∙ e

-- On a list whose items are linked, rtList_RemoveItemWithData and rtList_RemoveItemByCompare end and
-- have one of two results. Either no item passes their test, and the list is as it was. Or the first
-- item that passes, and this one alone, is taken out: the others keep their order, their links and
-- their data, and the item is in front of the free ones.
pub remove_first-Represents :
    (test : ℕ → Bool) (list : RtList) (l free : List ℕ) (has_destroyer : Bool)
    → Represents list l free
    → (Fails test list l × (remove_first test list has_destroyer ≡ some (false, list)))
      ⊎ ((found : Found test list l) × (list' : RtList) × (remove_first test list has_destroyer
            ≡ some (true, list'))
          × Represents list' (found.ahead ++ found.behind) (found.item ∷ free)
          × (contents list' (found.ahead ++ found.behind)
              ≡ contents list (found.ahead ++ found.behind)))
unfolding remove_first
remove_first-Represents test list l free has_destroyer r =
    elim (search_item-walks test list l r.nexts) [
      | inl (f, e) ↦ inl (f, ap cut (start test r e))
      | inr (found, e) ↦
          let r' =
            remove_item-Represents list found.item found.ahead found.behind free has_destroyer
              (subst (λ (k : List ℕ). Represents list k free) found.split r) in
          inr
            (found, remove_item list found.item has_destroyer, ap cut (start test r e), r'.0, r'.1)
    ]
  where
    cut : Option (Option ℕ) → Option (Bool × RtList)
    cut none = none
    cut (some none) = some (false, list)
    cut (some (some item)) = some (true, remove_item list item has_destroyer)

-- rtList_Find ends with the data of the first item that passes the test, and with NULL if there is
-- none.
find_lem :
    (test : ℕ → Bool) (list : RtList) (l free : List ℕ)
    → Represents list l free
    → (Fails test list l × (find test list ≡ some 0))
      ⊎ ((found : Found test list l) × (find test list ≡ some (list.data_of found.item)))
unfolding find
find_lem test list l free r = elim (search_item-walks test list l r.nexts) [
  | inl (f, e) ↦ inl (f, ap look (start test r e))
  | inr (found, e) ↦ inr (found, ap look (start test r e))
]
  where
    look : Option (Option ℕ) → Option ℕ
    look none = none
    look (some found) = some (data_at list found)
