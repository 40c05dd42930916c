-- ===== src/RtList/Links.antt =====
-- Chains of items: a list of addresses that the fields `next` and `prev` link.
use rbus.Base.{
  ℕ, suc, ◌+◌, ◌≤◌, ◌≡◌, refl, sym, ◌∙◌, true, false, Option, none, some, List, [], ◌∷◌, ◌++◌, ◌==◌,
  if◌then◌else◌, arith,
}
use rbus.RtList.{update, update_at, points_to}

-- How many times an address is in a list.
unfoldable pub count : ℕ → List ℕ → ℕ
count a [] = 0
count a (b ∷ l) = (if b == a then 1 else 0) + count a l

abbrev pub first : List ℕ → Option ℕ → Option ℕ
first [] n = n
first (a ∷ l) n = some a

abbrev pub final : Option ℕ → List ℕ → Option ℕ
final p [] = p
final p (a ∷ l) = final (some a) l

-- The fields lead from each item to the next one and at the end to `n`, and back to `p`.
abbrev pub Nexts : (ℕ → Option ℕ) → List ℕ → Option ℕ → Type 0
Nexts f [] n = Unit
Nexts f (a ∷ l) n = (f a ≡ first l n) × Nexts f l n

abbrev pub Prevs : (ℕ → Option ℕ) → Option ℕ → List ℕ → Type 0
Prevs f p [] = Unit
Prevs f p (a ∷ l) = (f a ≡ p) × Prevs f (some a) l

pub count-append : (a : ℕ) (l k : List ℕ) → count a (l ++ k) ≡ count a l + count a k
unfolding count
count-append a [] k = omega arith
count-append a (b ∷ l) k = omega (arith, count-append a l k)

pub count-head : (a : ℕ) (l : List ℕ) → count a (a ∷ l) ≡ suc (count a l)
unfolding count
count-head a l = ground arith

pub count-insert : (x a : ℕ) (l k : List ℕ) → count x (l ++ a ∷ k) ≡ count x (a ∷ l ++ k)
unfolding count
count-insert x a l k = omega (arith, count-append x l (a ∷ k), count-append x l k)

pub count-tail-le : (x a : ℕ) (l : List ℕ) → count x l ≤ count x (a ∷ l)
unfolding count
count-tail-le x a l = omega arith

-- An address that is not in a list is neither its head nor in its tail.
pub absent-tail :
    (a b : ℕ) (l : List ℕ) → count a (b ∷ l) ≡ 0 → ((b == a) ≡ false) × (count a l ≡ 0)
unfolding count
absent-tail a b l h = ground arith

-- Two addresses, one of which is in a list and the other is not.
pub absent-differ :
    (x a : ℕ) (l k : List ℕ) → count x (l ++ a ∷ k) ≡ 0 → ((a == x) ≡ false) × ((x == a) ≡ false)
unfolding count
absent-differ x a l k c =
    let t : count x (a ∷ k) ≡ 0 = omega (arith, c, count-append x l (a ∷ k)) in
    let e = (absent-tail x a k t).0 in (e, ground arith)

pub first-append : (l k : List ℕ) (n : Option ℕ) → first (l ++ k) n ≡ first l (first k n)
first-append [] k n = refl
first-append (a ∷ l) k n = refl

pub final-append : (p : Option ℕ) (l k : List ℕ) → final p (l ++ k) ≡ final (final p l) k
final-append p [] k = refl
final-append p (a ∷ l) k = final-append (some a) l k

pub Nexts-append :
    (f : ℕ → Option ℕ) (l k : List ℕ) (n : Option ℕ)
    → Nexts f l (first k n)
    → Nexts f k n
    → Nexts f (l ++ k) n
Nexts-append f [] k n h i = i
Nexts-append f (a ∷ l) k n h i = (h.0 ∙ sym (first-append l k n), Nexts-append f l k n h.1 i)

pub Nexts-split :
    (f : ℕ → Option ℕ) (l k : List ℕ) (n : Option ℕ)
    → Nexts f (l ++ k) n
    → Nexts f l (first k n) × Nexts f k n
Nexts-split f [] k n h = (tt, h)
Nexts-split f (a ∷ l) k n h =
    let r = Nexts-split f l k n h.1 in ((h.0 ∙ first-append l k n, r.0), r.1)

pub Prevs-append :
    (f : ℕ → Option ℕ) (p : Option ℕ) (l k : List ℕ)
    → Prevs f p l
    → Prevs f (final p l) k
    → Prevs f p (l ++ k)
Prevs-append f p [] k h i = i
Prevs-append f p (a ∷ l) k h i = (h.0, Prevs-append f (some a) l k h.1 i)

pub Prevs-split :
    (f : ℕ → Option ℕ) (p : Option ℕ) (l k : List ℕ)
    → Prevs f p (l ++ k)
    → Prevs f p l × Prevs f (final p l) k
Prevs-split f p [] k h = (tt, h)
Prevs-split f p (a ∷ l) k h = let r = Prevs-split f (some a) l k h.1 in ((h.0, r.0), r.1)

-- A write at an item that is not in the list.
pub Nexts-update :
    (f : ℕ → Option ℕ) (a : ℕ) (v : Option ℕ) (l : List ℕ) (n : Option ℕ)
    → count a l ≡ 0
    → Nexts f l n
    → Nexts (update f a v) l n
Nexts-update f a v [] n c h = tt
Nexts-update f a v (b ∷ l) n c h =
    let (e, c') = absent-tail a b l c in (rw e h.0, Nexts-update f a v l n c' h.1)

pub Prevs-update :
    (f : ℕ → Option ℕ) (a : ℕ) (v p : Option ℕ) (l : List ℕ)
    → count a l ≡ 0
    → Prevs f p l
    → Prevs (update f a v) p l
Prevs-update f a v p [] c h = tt
Prevs-update f a v p (b ∷ l) c h =
    let (e, c') = absent-tail a b l c in (rw e h.0, Prevs-update f a v (some b) l c' h.1)

pub update-same {ℓ} : {A : Type ℓ} (f : ℕ → A) (a : ℕ) (v : A) → update f a v a ≡ v
update-same f a v = let e : (a == a) ≡ true = ground arith in rw e refl

-- A pointer that is not to an item of the list.
abbrev pub Outside : Option ℕ → List ℕ → Type 0
Outside none l = Unit
Outside (some a) l = count a l ≡ 0

pub Nexts-update_at :
    (f : ℕ → Option ℕ) (o v : Option ℕ) (l : List ℕ) (n : Option ℕ)
    → Outside o l
    → Nexts f l n
    → Nexts (update_at f o v) l n
Nexts-update_at f none v l n c h = h
Nexts-update_at f (some a) v l n c h = Nexts-update f a v l n c h

pub Prevs-update_at :
    (f : ℕ → Option ℕ) (o v p : Option ℕ) (l : List ℕ)
    → Outside o l
    → Prevs f p l
    → Prevs (update_at f o v) p l
Prevs-update_at f none v p l c h = h
Prevs-update_at f (some a) v p l c h = Prevs-update f a v p l c h

-- Lists without an item in common.
pub Outside-first :
    (l k : List ℕ) → ((x : ℕ) → count x l + count x k ≤ 1) → Outside (first l none) k
Outside-first [] k h = tt
Outside-first (a ∷ l) k h = omega (arith, h a, count-head a l)

pub Outside-final :
    (p : Option ℕ) (l k : List ℕ)
    → Outside p k
    → ((x : ℕ) → count x l + count x k ≤ 1)
    → Outside (final p l) k
unfolding count
Outside-final p [] k o h = o
Outside-final p (a ∷ l) k o h =
    Outside-final (some a) l k (omega (arith, h a, count-head a l)) (λ x. omega (arith, h x))

pub points_to-final :
    (a : ℕ) (p : Option ℕ) (l : List ℕ)
    → points_to p a ≡ false
    → count a l ≡ 0
    → points_to (final p l) a ≡ false
points_to-final a p [] e c = e
points_to-final a p (b ∷ l) e c =
    let (t, c') = absent-tail a b l c in points_to-final a (some b) l t c'

pub Nexts-last :
    (f : ℕ → Option ℕ) (l : List ℕ) (n : Option ℕ) (at : ℕ)
    → Nexts f l n
    → final none l ≡ some at
    → f at ≡ n
Nexts-last f [] n at h e = cc
Nexts-last f (a ∷ []) n at h e = let q : a ≡ at = cc in rw q at h.0
Nexts-last f (a ∷ b ∷ l) n at h e = Nexts-last f (b ∷ l) n at h.1 e

-- The field of an item that is neither `p` nor in the list.
pub update_at-final :
    (f : ℕ → Option ℕ) (p : Option ℕ) (k : List ℕ) (v : Option ℕ) (a : ℕ)
    → points_to p a ≡ false
    → count a k ≡ 0
    → update_at f (final p k) v a ≡ f a
update_at-final f none [] v a e c = refl
update_at-final f (some d) [] v a e c = let q : (a == d) ≡ false = ground arith in rw q refl
update_at-final f p (d ∷ k) v a e c =
    let (e', c') = absent-tail a d k c in update_at-final f (some d) k v a e' c'

pub update_at-first :
    (f : ℕ → Option ℕ) (k : List ℕ) (v : Option ℕ) (a : ℕ)
    → count a k ≡ 0
    → update_at f (first k none) v a ≡ f a
unfolding count
update_at-first f [] v a c = refl
update_at-first f (d ∷ k) v a c =
    let (e, c') = absent-tail a d k c in update_at-final f (some d) [] v a e refl

-- A write at the last item changes where the list leads to.
pub Nexts-final :
    (f : ℕ → Option ℕ) (l : List ℕ) (n v : Option ℕ)
    → ((x : ℕ) → count x l ≤ 1)
    → Nexts f l n
    → Nexts (update_at f (final none l) v) l v
unfolding count
Nexts-final f [] n v h i = tt
Nexts-final f (a ∷ []) n v h i = (update-same f a v, tt)
Nexts-final f (a ∷ b ∷ l) n v h i =
    let t : count a (b ∷ l) ≡ 0 = omega (arith, h a, count-head a (b ∷ l)) in
    let (e, c) = absent-tail a b l t in
    (
      update_at-final f (some b) l v a e c ∙ i.0,
      Nexts-final f (b ∷ l) n v (λ x. omega (arith, h x)) i.1,
    )

-- A write at the first item changes where the list leads back to.
pub Prevs-first :
    (f : ℕ → Option ℕ) (l : List ℕ) (p v : Option ℕ)
    → ((x : ℕ) → count x l ≤ 1)
    → Prevs f p l
    → Prevs (update_at f (first l none) v) v l
Prevs-first f [] p v h i = tt
Prevs-first f (a ∷ l) p v h i =
    (update-same f a v, Prevs-update f a v (some a) l (omega (arith, h a, count-head a l)) i.1)
