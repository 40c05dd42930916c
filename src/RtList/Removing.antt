-- ===== src/RtList/Removing.antt =====
-- rtList_RemoveItem.
use rbus.Base.{
  ℕ, suc, ◌+◌, ◌-◌, ◌≤◌, ◌≡◌, refl, ◌∙◌, Bool, true, false, Option, none, some, List, [], ◌∷◌, ◌++◌,
  ◌==◌, if◌then◌else◌, length, length-append, if-elim, arith, not, ◌&&◌,
}
use rbus.RtList.{RtList, update_at, points_to, set_free_item, destroy_data, unlink, remove_item}
use rbus.RtList.Contents.{Represents, contents, contents-update}
use rbus.RtList.Links.{
  count, first, final, Nexts, Prevs, count-append, count-head, count-tail-le, absent-tail,
  final-append, Nexts-append, Nexts-split, Prevs-append, Prevs-split, Nexts-update, Prevs-update,
  update-same, Nexts-update_at, Prevs-update_at, Outside-first, Outside-final, Nexts-final,
  Prevs-first, points_to-final,
}

-- The items around the one that is removed.
abbrev Unlinked : RtList → List ℕ → List ℕ → Type 0
Unlinked list l k =
    (list.front ≡ first (l ++ k) none)
    × (list.back ≡ final none (l ++ k))
    × Nexts list.next (l ++ k) none
    × Prevs list.prev none (l ++ k)

front_of :
    (a : ℕ) (l k : List ℕ) (n : Option ℕ)
    → count a l ≡ 0
    → n ≡ first k none
    → (if points_to (first (l ++ a ∷ k) none) a then n else first (l ++ a ∷ k) none)
      ≡ first (l ++ k) none
front_of a [] k n c e = let t : (a == a) ≡ true = ground arith in rw t e
front_of a (b ∷ l) k n c e = let (t, c') = absent-tail a b l c in rw t refl

back_of :
    (a : ℕ) (p : Option ℕ) (k : List ℕ) (n : Option ℕ)
    → count a k ≡ 0
    → n ≡ p
    → (if points_to (final (some a) k) a then n else final (some a) k) ≡ final p k
back_of a p [] n c e = let t : (a == a) ≡ true = ground arith in rw t e
back_of a p (b ∷ k) n c e =
    let (t, c') = absent-tail a b k c in rw (points_to-final a (some b) k t c') refl

next-unlinked :
    (f : ℕ → Option ℕ) (o v : Option ℕ) (a : ℕ) (l k : List ℕ)
    → o ≡ final none l
    → v ≡ first k none
    → ((x : ℕ) → count x l + count x k ≤ 1)
    → Nexts f l (some a)
    → Nexts f k none
    → Nexts (update_at f o v) (l ++ k) none
next-unlinked f o v a l k q e c h i =
    rw (q, e)
      (Nexts-append _ l k none (Nexts-final f l (some a) (first k none) (λ x. omega (arith, c x)) h)
        (Nexts-update_at f (final none l) (first k none) k none (Outside-final none l k tt c) i))

prev-unlinked :
    (f : ℕ → Option ℕ) (o v : Option ℕ) (a : ℕ) (l k : List ℕ)
    → o ≡ first k none
    → v ≡ final none l
    → ((x : ℕ) → count x l + count x k ≤ 1)
    → Prevs f none l
    → Prevs f (some a) k
    → Prevs (update_at f o v) none (l ++ k)
prev-unlinked f o v a l k q e c h i =
    rw (q, e)
      (Prevs-append _ none l k
        (Prevs-update_at f (first k none) (final none l) none l
          (Outside-first k l (λ x. omega (arith, c x))) h)
        (Prevs-first f k (some a) (final none l) (λ x. omega (arith, c x)) i))

update_at_self : (f : ℕ → Option ℕ) (o : Option ℕ) (a : ℕ) → update_at f o (f a) a ≡ f a
update_at_self f none a = refl
update_at_self f (some b) a = ite_same (a == b) (f a)
  where
    ite_same : (t : Bool) (v : Option ℕ) → (if t then v else v) ≡ v
    ite_same true v = refl
    ite_same false v = refl

unlink-Unlinked :
    (list : RtList) (a : ℕ) (l k free : List ℕ)
    → Represents list (l ++ a ∷ k) free
    → Unlinked (unlink list a) l k
unfolding unlink
unlink-Unlinked list a l k free r =
    let o : (x : ℕ) → count x l + count x (a ∷ k) ≤ 1 =
      λ x. omega (arith, r.once x, count-append x l (a ∷ k)) in
    let c : (x : ℕ) → count x l + count x k ≤ 1 = λ x. omega (arith, o x, count-tail-le x a k) in
    let cl : count a l ≡ 0 = omega (arith, o a, count-head a k) in
    let ck : count a k ≡ 0 = omega (arith, o a, count-head a k) in
    let n = Nexts-split list.next l (a ∷ k) none r.nexts in
    let p = Prevs-split list.prev none l (a ∷ k) r.prevs in
    let nx = update_at_self list.next (list.prev a) a ∙ n.1.0 in
    let pv =
      update_at_self list.prev (update_at list.next (list.prev a) (list.next a) a) a ∙ p.1.0 in
    (
      rw r.front (front_of a l k _ cl nx),
      rw (r.back, final-append none l (a ∷ k), final-append none l k)
          (back_of a (final none l) k _ ck pv),
      next-unlinked list.next (list.prev a) (list.next a) a l k p.1.0 n.1.0 c n.0 n.1.1,
      prev-unlinked list.prev _ (list.prev a) a l k nx p.1.0 c p.0 p.1.1,
    )

-- The list between the removal of an item and its way to the free ones.
abbrev Detached : RtList → ℕ → List ℕ → List ℕ → List ℕ → Type 0
Detached list a l k free =
    Unlinked list l k
    × (list.free ≡ first free none)
    × Nexts list.next free none
    × ((x : ℕ) → count x (l ++ k) + count x (a ∷ free) ≤ 1)
    × ((x : ℕ) → list.used ≤ x → count x (l ++ k) + count x (a ∷ free) ≡ 0)
    × (list.size ≡ suc (length (l ++ k)))

count-moved :
    (x a : ℕ) (l k free : List ℕ)
    → count x (l ++ k) + count x (a ∷ free) ≡ count x (l ++ a ∷ k) + count x free
unfolding count
count-moved x a l k free = omega (arith, count-append x l k, count-append x l (a ∷ k))

length-moved : (a : ℕ) (l k : List ℕ) → length (l ++ a ∷ k) ≡ suc (length (l ++ k))
length-moved a l k = omega (arith, length-append l (a ∷ k), length-append l k)

unlink-Detached :
    (list : RtList) (a : ℕ) (l k free : List ℕ)
    → Represents list (l ++ a ∷ k) free
    → Detached (unlink list a) a l k free
unfolding unlink
unlink-Detached list a l k free r =
    let p = Prevs-split list.prev none l (a ∷ k) r.prevs in
    let c : (x : ℕ) → count x l + count x free ≤ 1 =
      λ x. omega (arith, r.once x, count-append x l (a ∷ k)) in
    (
      unlink-Unlinked list a l k free r,
      r.free_front,
      rw p.1.0 (
          Nexts-update_at list.next (final none l) (list.next a) free none
            (Outside-final none l free tt c) r.free_nexts),
      (λ x. omega (arith, r.once x, count-moved x a l k free)),
      (λ x h. omega (arith, r.allocated x h, count-moved x a l k free)),
      r.size ∙ length-moved a l k,
    )

destroy_data-Detached :
    (list : RtList) (item : ℕ) (has_destroyer : Bool) (a : ℕ) (l k free : List ℕ)
    → Detached list a l k free
    → Detached (destroy_data list item has_destroyer) a l k free
destroy_data-Detached list item has_destroyer a l k free d =
    if-elim (λ s. Detached s a l k free) (has_destroyer && not (list.data_of item == 0)) _ _
      (λ e. d) (λ e. d)

set_free_item-Represents :
    (list : RtList) (a : ℕ) (l k free : List ℕ)
    → Detached list a l k free
    → Represents (record (set_free_item list a) { size = list.size - 1 }) (l ++ k) (a ∷ free)
unfolding set_free_item
set_free_item-Represents list a l k free d =
    let c : count a (l ++ k) ≡ 0 = omega (arith, d.3 a, count-head a free) in
    let cf : count a free ≡ 0 = omega (arith, d.3 a, count-head a free) in
    let o : (x : ℕ) → count x (l ++ k) + count x free ≤ 1 =
      λ x. omega (arith, d.3 x, count-tail-le x a free) in
    record {
      front = d.0.0;
      back = d.0.1;
      nexts = Nexts-update list.next a list.free (l ++ k) none c d.0.2;
      prevs = Prevs-update _ a none none (l ++ k) c (
          rw d.1 (
            Prevs-update_at list.prev (first free none) (some a) none (l ++ k)
              (Outside-first free (l ++ k) (λ x. omega (arith, o x))) d.0.3));
      free_front = refl;
      free_nexts = (
        update-same list.next a list.free ∙ d.1,
        Nexts-update list.next a list.free free none cf d.2,
      );
      once = d.3;
      allocated = d.4;
      size = omega (arith, d.5);
    }

destroy_data-contents :
    (list : RtList) (a : ℕ) (has_destroyer : Bool) (l : List ℕ)
    → count a l ≡ 0
    → contents (destroy_data list a has_destroyer) l ≡ contents list l
destroy_data-contents list a has_destroyer l c =
    if-elim (λ s. contents s l ≡ contents list l) (has_destroyer && not (list.data_of a == 0)) _ _
      (λ e. contents-update list.data_of a 0 l c) (λ e. refl)

-- The removal of an item of the list, wherever it stands, takes that item out of it and leaves the
-- others linked in both directions, in their order, with their data and the right size, and puts the
-- item in front of the free ones.
pub remove_item-Represents :
    (list : RtList) (a : ℕ) (l k free : List ℕ) (has_destroyer : Bool)
    → Represents list (l ++ a ∷ k) free
    → Represents (remove_item list a has_destroyer) (l ++ k) (a ∷ free)
      × (contents (remove_item list a has_destroyer) (l ++ k) ≡ contents list (l ++ k))
unfolding remove_item set_free_item unlink
remove_item-Represents list a l k free has_destroyer r =
    let d = unlink-Detached list a l k free r in
    (
      set_free_item-Represents (destroy_data (unlink list a) a has_destroyer) a l k free
          (destroy_data-Detached (unlink list a) a has_destroyer a l k free d),
      destroy_data-contents (unlink list a) a has_destroyer (l ++ k)
          (omega (arith, d.3 a, count-head a free)),
    )
