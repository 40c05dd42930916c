-- ===== src/RtList/Contents.antt =====
-- What a list of items stands for.
use rbus.Base.{ℕ, ◌+◌, ◌≤◌, ◌≡◌, refl, none, List, [], ◌∷◌, length, map}
use rbus.RtList.{RtList, update}
use rbus.RtList.Links.{count, first, final, Nexts, Prevs, absent-tail}

-- The fields of the list lead along the items `l` forwards and backwards and along the free ones
-- forwards; no item is in either list twice or in both; and the size is the number of the items.
pub record Represents (list : RtList) (l free : List ℕ) : Type 0 where
  pub front : list.front ≡ first l none
  pub back : list.back ≡ final none l
  pub nexts : Nexts list.next l none
  pub prevs : Prevs list.prev none l
  pub free_front : list.free ≡ first free none
  pub free_nexts : Nexts list.next free none
  pub once : (x : ℕ) → count x l + count x free ≤ 1
  pub allocated : (x : ℕ) → list.used ≤ x → count x l + count x free ≡ 0
  pub size : list.size ≡ length l

-- The data of the items.
abbrev pub contents : RtList → List ℕ → List ℕ
contents list l = map list.data_of l

pub contents-update :
    (f : ℕ → ℕ) (a v : ℕ) (l : List ℕ) → count a l ≡ 0 → map (update f a v) l ≡ map f l
contents-update f a v [] c = refl
contents-update f a v (b ∷ l) c =
    let (e, c') = absent-tail a b l c in rw (e, contents-update f a v l c') refl
