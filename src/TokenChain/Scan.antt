-- ===== src/TokenChain/Scan.antt =====
-- Tokens read back from names that are put together from texts.
use mathlib.Core.List.{reverse, reverse-append, reverse-reverse}
use rbus.Base.{
  ℕ, ◌≡◌, ◌≢◌, refl, sym, ap, ◌∙◌, false, List, [], ◌∷◌, ◌++◌, append_assoc, append-nil, ◌==◌,
  arith,
}
use rbus.Base.Bytes.{All}
use rbus.Base.Names.{Name}
use rbus.TokenChain.{dot, scan, is_empty}

abbrev pub NoDots : Name → Type 0
NoDots text = All (λ c. c ≢ dot) text

-- The characters of the texts, joined by dots, from the last one; the texts too are in the order from
-- the last one.
abbrev pub rev_join : Name → List Name → List ℕ
rev_join t [] = reverse t
rev_join t (u ∷ us) = reverse t ++ dot ∷ rev_join u us

pub All-append : (a b : Name) → NoDots a → NoDots b → NoDots (a ++ b)
All-append [] b h k = k
All-append (c ∷ a) b h k = (h.0, All-append a b h.1 k)

pub All-reverse : (t : Name) → NoDots t → NoDots (reverse t)
All-reverse [] h = tt
All-reverse (c ∷ t) h =
    let e : reverse (c ∷ t) ≡ reverse t ++ c ∷ [] = reverse-append (c ∷ []) t in
    rw e (All-append (reverse t) (c ∷ []) (All-reverse t h.1) (h.0, tt))

reverse-onto : (c : ℕ) (l acc : Name) → reverse (c ∷ l) ++ acc ≡ reverse l ++ c ∷ acc
reverse-onto c l acc =
    ap (λ (r : Name). r ++ acc) (reverse-append (c ∷ []) l) ∙ append_assoc (reverse l) (c ∷ []) acc

pub scan-dot :
    (acc l source : Name)
    → NoDots l
    → scan acc (l ++ dot ∷ source) ≡ (reverse l ++ acc, dot ∷ source)
unfolding scan
scan-dot acc [] [] h = refl
scan-dot acc [] (d ∷ source) h = refl
scan-dot acc (c ∷ []) source h =
    let n : (c == dot) ≡ false = ground (arith, h.0) in rw n (scan-dot (c ∷ acc) [] source tt)
scan-dot acc (c ∷ d ∷ l) source h =
    let n : (c == dot) ≡ false = ground (arith, h.0) in
    rw (n, reverse-onto c (d ∷ l) acc) (scan-dot (c ∷ acc) (d ∷ l) source h.1)

pub scan-end :
    (acc : Name) (c : ℕ) (l : Name)
    → NoDots (c ∷ l)
    → (d : ℕ) × (scan acc (c ∷ l) ≡ (reverse (c ∷ l) ++ acc, d ∷ []))
unfolding scan
scan-end acc c [] h = let n : (c == dot) ≡ false = ground (arith, h.0) in (c, rw n refl)
scan-end acc c (d ∷ l) h =
    let n : (c == dot) ≡ false = ground (arith, h.0) in
    let (z, e) = scan-end (c ∷ acc) d l h.1 in (z, rw (n, reverse-onto c (d ∷ l) acc) e)

-- A text, as it stands in front of a dot and at the start of the name.
pub scan-reverse :
    (t source : Name) → NoDots t → scan [] (reverse t ++ dot ∷ source) ≡ (t, dot ∷ source)
scan-reverse t source h =
    let e = append-nil (reverse (reverse t)) ∙ reverse-reverse t in
    scan-dot [] (reverse t) source (All-reverse t h) ∙ ap (λ (r : Name). (r, dot ∷ source)) e

pub scan-first :
    (t : Name) → NoDots t → is_empty t ≡ false → (d : ℕ) × (scan [] (reverse t) ≡ (t, d ∷ []))
scan-first t h n = first (reverse t) (All-reverse t h) refl
  where
    first : (l : Name) → NoDots l → reverse t ≡ l → (d : ℕ) × (scan [] l ≡ (t, d ∷ []))
    first [] k e = let q = sym (reverse-reverse t) ∙ ap reverse e in let n' = rw q at n in cc
    first (c ∷ l) k e =
        let (d, z) = scan-end [] c l k in
        let q = append-nil (reverse (c ∷ l)) ∙ ap reverse (sym e) ∙ reverse-reverse t in
        (d, z ∙ ap (λ (r : Name). (r, d ∷ [])) q)
