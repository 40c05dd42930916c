-- ===== src/RtList/Refinement.antt =====
-- The series of calls of Runs end, and do what they should do.
use mathlib.Core.List.{map-append}
use mathlib.Core.Path.{subst}
use rbus.Base.{
  ℕ, zero, suc, ◌≡◌, refl, sym, ap, ap₂, ◌∙◌, Bool, false, Option, none, some, List, [], ◌∷◌, ◌++◌,
  ◌==◌, arith, map, append_assoc,
}
use rbus.Base.Bytes.{All}
use rbus.RtList.{RtList, create, reuse_data, remove_item}
use rbus.RtList.Contents.{Represents, contents}
use rbus.RtList.Links.{count, final-append}
use rbus.RtList.Adding.{push_front-Represents, push_back-Represents}
use rbus.RtList.Inserting.{insert_before-Represents}
use rbus.RtList.Behind.{insert_after-Represents}
use rbus.RtList.Removing.{remove_item-Represents}
use rbus.RtList.Emptying.{move_all, remove_all_items-Represents}
use rbus.RtList.Runs.{
  Call, pushes_front, pushes_back, inserts_before, inserts_after, removes, removes_all, split_at,
  Split, between, insert_before_at, insert_after_at, remove_item_at, emptied, put_before,
  put_behind, drop_at, put_front, State, perform, run, ideal, ideal_run, IsFresh, Holds,
}

abbrev Joined : List ℕ → Option Split → Type 0
Joined l none = Unit
Joined l (some (b, at, k)) = l ≡ b ++ at ∷ k

put_front-Joined :
    (a : ℕ) (l : List ℕ) (o : Option Split) → Joined l o → Joined (a ∷ l) (put_front a o)
put_front-Joined a l none j = tt
put_front-Joined a l (some (b, at, k)) j = ap (λ (x : List ℕ). a ∷ x) j

split_at-Joined : (n : ℕ) (l : List ℕ) → Joined l (split_at n l)
unfolding split_at
split_at-Joined n [] = tt
split_at-Joined zero (a ∷ l) = refl
split_at-Joined (suc n) (a ∷ l) = put_front-Joined a l (split_at n l) (split_at-Joined n l)

abbrev map_split : (ℕ → ℕ) → Option Split → Option Split
map_split f none = none
map_split f (some (b, at, k)) = some (map f b, f at, map f k)

put_front-map_split :
    (f : ℕ → ℕ) (a : ℕ) (o : Option Split)
    → put_front (f a) (map_split f o) ≡ map_split f (put_front a o)
put_front-map_split f a none = refl
put_front-map_split f a (some (b, at, k)) = refl

split_at-map : (f : ℕ → ℕ) (n : ℕ) (l : List ℕ) → split_at n (map f l) ≡ map_split f (split_at n l)
unfolding split_at
split_at-map f n [] = refl
split_at-map f zero (a ∷ l) = refl
split_at-map f (suc n) (a ∷ l) =
    ap (put_front (f a)) (split_at-map f n l) ∙ put_front-map_split f a (split_at n l)

-- A new entry, from where it is and what the others are.
inserted-contents :
    (f g : ℕ → ℕ) (b m : List ℕ) (item value : ℕ)
    → map g (b ++ m) ≡ map f (b ++ m)
    → g item ≡ value
    → map g (b ++ item ∷ m) ≡ map f b ++ value ∷ map f m
inserted-contents f g [] m item value h e = ap₂ (λ (x : ℕ) (xs : List ℕ). x ∷ xs) e h
inserted-contents f g (a ∷ b) m item value h e =
    let p : g a ≡ f a = cc in
    let q : map g (b ++ m) ≡ map f (b ++ m) = cc in
    ap₂ (λ (x : ℕ) (xs : List ℕ). x ∷ xs) p (inserted-contents f g b m item value q e)

abbrev Performs : Call → State → List ℕ → Type 0
Performs c s vs = (s' : State) × (perform c s ≡ some s') × Holds s' (ideal c vs)

-- What is known of the entry at a position.
abbrev SplitsAt : ℕ → RtList → List ℕ → Option Split → Type 0
SplitsAt n list l none = (split_at n l ≡ none) × (split_at n (contents list l) ≡ none)
SplitsAt n list l (some (b, at, k)) =
    (l ≡ b ++ at ∷ k)
    × (split_at n l ≡ some (b, at, k))
    × (split_at n (contents list l) ≡ some (contents list b, list.data_of at, contents list k))

split_at-SplitsAt : (n : ℕ) (list : RtList) (l : List ℕ) → SplitsAt n list l (split_at n l)
split_at-SplitsAt n list l = known (split_at n l) refl
  where
    known : (o : Option Split) → split_at n l ≡ o → SplitsAt n list l o
    known none e = let m = split_at-map list.data_of n l in (e, m ∙ ap (map_split list.data_of) e)
    known (some (b, at, k)) e =
        let m = split_at-map list.data_of n l in
        (
          subst (λ (x : Option Split). Joined l x) e (split_at-Joined n l),
          e,
          m ∙ ap (map_split list.data_of) e,
        )

inserts_before-Performs :
    (n value : ℕ) (list : RtList) (l free : List ℕ)
    → (value == reuse_data) ≡ false
    → Represents list l free
    → (o : Option Split) → SplitsAt n list l o
    → Performs (inserts_before n value) (list, l) (contents list l)
unfolding perform ideal
inserts_before-Performs n value list l free fresh r none (q, q') = (
  (list, l),
  ap (insert_before_at (list, l) value) q,
  (free, r, sym (ap (put_before (contents list l) value) q')),
)
inserts_before-Performs n value list l free fresh r (some (b, at, k)) (z, q, q') =
    let r' = subst (λ (x : List ℕ). Represents list x free) z r in
    let (item, list', free', e, rep, c, d) =
      insert_before-Represents list value at b k free fresh r' in
    (
      (list', b ++ item ∷ at ∷ k),
      ap (insert_before_at (list, l) value) q ∙ ap (between b (at ∷ k)) e,
      (
        free',
        rep,
        inserted-contents list.data_of list'.data_of b (at ∷ k) item value c d
            ∙ sym (ap (put_before (contents list l) value) q'),
      ),
    )

inserts_after-Performs :
    (n value : ℕ) (list : RtList) (l free : List ℕ)
    → (value == reuse_data) ≡ false
    → Represents list l free
    → (o : Option Split) → SplitsAt n list l o
    → Performs (inserts_after n value) (list, l) (contents list l)
unfolding perform ideal
inserts_after-Performs n value list l free fresh r none (q, q') = (
  (list, l),
  ap (insert_after_at (list, l) value) q,
  (free, r, sym (ap (put_behind (contents list l) value) q')),
)
inserts_after-Performs n value list l free fresh r (some (b, at, k)) (z, q, q') =
    let r' =
      subst (λ (x : List ℕ). Represents list x free) (z ∙ sym (append_assoc b (at ∷ []) k)) r in
    let (item, list', free', e, rep, c, d) =
      insert_after-Represents list value at (b ++ at ∷ []) k free fresh
        (final-append none b (at ∷ [])) r' in
    (
      (list', (b ++ at ∷ []) ++ item ∷ k),
      ap (insert_after_at (list, l) value) q ∙ ap (between (b ++ at ∷ []) k) e,
      (
        free',
        rep,
        inserted-contents list.data_of list'.data_of (b ++ at ∷ []) k item value c d
            ∙ ap (λ (x : List ℕ). x ++ value ∷ contents list k)
                (map-append list.data_of b (at ∷ []))
            ∙ sym (ap (put_behind (contents list l) value) q'),
      ),
    )

removes-Performs :
    (n : ℕ) (has_destroyer : Bool) (list : RtList) (l free : List ℕ)
    → Represents list l free
    → (o : Option Split) → SplitsAt n list l o
    → Performs (removes n has_destroyer) (list, l) (contents list l)
unfolding perform ideal
removes-Performs n has_destroyer list l free r none (q, q') = (
  (list, l),
  ap (remove_item_at (list, l) has_destroyer) q,
  (free, r, sym (ap (drop_at (contents list l)) q')),
)
removes-Performs n has_destroyer list l free r (some (b, at, k)) (z, q, q') =
    let r' = subst (λ (x : List ℕ). Represents list x free) z r in
    let (rep, c) = remove_item-Represents list at b k free has_destroyer r' in
    (
      (remove_item list at has_destroyer, b ++ k),
      ap (remove_item_at (list, l) has_destroyer) q,
      (at ∷ free, rep, c ∙ map-append list.data_of b k ∙ sym (ap (drop_at (contents list l)) q')),
    )

perform-Performs :
    (c : Call) (list : RtList) (l free : List ℕ)
    → IsFresh c
    → Represents list l free
    → Performs c (list, l) (contents list l)
unfolding perform ideal
perform-Performs (pushes_front value) list l free fresh r =
    let (free', r', c) = push_front-Represents list value l free fresh r in
    (_, refl, (free', r', c))
perform-Performs (pushes_back value) list l free fresh r =
    let (free', r', c) = push_back-Represents list value l free fresh r in (_, refl, (free', r', c))
perform-Performs (inserts_before n value) list l free fresh r =
    inserts_before-Performs n value list l free fresh r _ (split_at-SplitsAt n list l)
perform-Performs (inserts_after n value) list l free fresh r =
    inserts_after-Performs n value list l free fresh r _ (split_at-SplitsAt n list l)
perform-Performs (removes n has_destroyer) list l free fresh r =
    removes-Performs n has_destroyer list l free r _ (split_at-SplitsAt n list l)
perform-Performs (removes_all has_destroyer) list l free fresh r =
    let (list', e, r') = remove_all_items-Represents list l free has_destroyer r in
    ((list', []), ap emptied e, (move_all l free, r', refl))

create-Represents : Represents create [] []
unfolding count
create-Represents = record {
  front = refl;
  back = refl;
  nexts = tt;
  prevs = tt;
  free_front = refl;
  free_nexts = tt;
  once = λ x. omega arith;
  allocated = λ x h. refl;
  size = refl;
}

run-Holds :
    (calls : List Call) (s : State) (vs : List ℕ)
    → All IsFresh calls
    → Holds s vs
    → (s' : State) × (run s calls ≡ some s') × Holds s' (ideal_run vs calls)
unfolding run
run-Holds [] s vs f h = (s, refl, h)
run-Holds (c ∷ calls) (list, l) vs f (free, r, e) =
    let (s', p, h) =
      subst (λ (x : List ℕ). Performs c (list, l) x) e (perform-Performs c list l free f.0 r) in
    let (s'', p', h') = run-Holds calls s' (ideal c vs) f.1 h in (s'', rw p p', h')

-- Take any series of calls of rtList_PushFront, _PushBack, _InsertBefore, _InsertAfter, _RemoveItem and
-- _RemoveAllItems on a new list, each given an item by its position, none of whose new data is
-- rtListReuseData. Every call ends, and dereferences no NULL. At the end the list has exactly the data
-- that the same calls leave of a plain list, in the same order: its fields lead along the items forwards
-- and backwards and give their number, and the recycled items are others.
pub run-ideal_run :
    (calls : List Call)
    → All IsFresh calls
    → (s : State) × (run (create, []) calls ≡ some s) × Holds s (ideal_run [] calls)
run-ideal_run calls f = run-Holds calls (create, []) [] f ([], create-Represents, refl)
