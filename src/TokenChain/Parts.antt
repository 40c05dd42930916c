-- ===== src/TokenChain/Parts.antt =====
-- The parts of a name as they are written, and the token that each is read back as.
use mathlib.Core.List.{reverse, reverse-append}
use rbus.Base.{
  ℕ, ◌≡◌, ◌≢◌, refl, ap, ◌∙◌, true, false, some, List, [], ◌∷◌, ◌++◌, append_assoc, ltb, ◌==◌,
  Bool-cases, inl, inr, arith,
}
use rbus.Base.Bytes.{All}
use rbus.Base.Names.{Name, same, eq_of_same}
use rbus.TokenChain.{
  ElementNode, chain, dot, digits, atoi, star, until_bracket, alias_token, opens_bracket, row_token,
  make_token, is_empty, is_row,
}
use rbus.TokenChain.Scan.{NoDots, All-append, rev_join}
use rbus.TokenChain.Match.{
  Segment, plain, instance_number, alias_of, any_row, text_of, token_of, is_row_segment,
}

-- A part without a dot, that reads back as what it is.
abbrev pub IsValid : Segment → Type 0
IsValid (plain name) = NoDots name × (is_empty name ≡ false)
IsValid (instance_number number) = NoDots number × (ltb 0 (atoi number) ≡ true)
IsValid (alias_of c alias) = NoDots (c ∷ alias) × All (λ d. d ≢ 93) alias
IsValid any_row = Unit

abbrev pub AreValid : List Segment → Type 0
AreValid segments = All IsValid segments

-- The name, from its last part.
unfoldable pub print_name : Segment → List Segment → Name
print_name s [] = text_of s
print_name s (u ∷ segments) = print_name u segments ++ dot ∷ text_of s

-- One part for each node below the root.
abbrev pub SameDepth : List Segment → List ElementNode → Type 0
SameDepth [] (root ∷ []) = Unit
SameDepth (s ∷ segments) (e ∷ nodes) = SameDepth segments nodes
SameDepth _ _ = ⊥

unfoldable pub texts : List Segment → List Name
texts [] = []
texts (s ∷ segments) = text_of s ∷ texts segments

pub reverse-print_name :
    (s : Segment) (segments : List Segment)
    → reverse (print_name s segments) ≡ rev_join (text_of s) (texts segments)
unfolding print_name texts
reverse-print_name s [] = refl
reverse-print_name s (u ∷ segments) =
    reverse-append (print_name u segments) (dot ∷ text_of s)
    ∙ ap (λ (r : Name). r ++ reverse (print_name u segments))
        (reverse-append (dot ∷ []) (text_of s))
    ∙ append_assoc (reverse (text_of s)) (dot ∷ []) (reverse (print_name u segments))
    ∙ ap (λ (r : Name). reverse (text_of s) ++ dot ∷ r) (reverse-print_name u segments)

until_bracket-append :
    (alias : Name) → All (λ d. d ≢ 93) alias → until_bracket (alias ++ 93 ∷ []) ≡ some alias
unfolding until_bracket
until_bracket-append [] h = refl
until_bracket-append (c ∷ alias) h =
    let n : (c == 93) ≡ false = ground (arith, h.0) in rw (n, until_bracket-append alias h.1) refl

pub NoDots-text_of : (s : Segment) → IsValid s → NoDots (text_of s)
unfolding text_of
NoDots-text_of (plain name) v = v.0
NoDots-text_of (instance_number number) v = v.0
NoDots-text_of (alias_of c alias) v =
    (ground arith, (v.0.0, All-append alias (93 ∷ []) v.0.1 (ground arith, tt)))
NoDots-text_of any_row v = (ground arith, tt)

pub is_empty-text_of : (s : Segment) → IsValid s → is_empty (text_of s) ≡ false
unfolding text_of atoi
is_empty-text_of (plain name) v = v.1
is_empty-text_of (instance_number []) v = let n = v.1 in cc
is_empty-text_of (instance_number (c ∷ number)) v = refl
is_empty-text_of (alias_of c alias) v = refl
is_empty-text_of any_row v = refl

opens_bracket-number : (number : Name) → ltb 0 (atoi number) ≡ true → opens_bracket number ≡ false
unfolding atoi digits
opens_bracket-number [] v = refl
opens_bracket-number (c ∷ number) v = elim (Bool-cases (c == 91)) [
  | inl t ↦ let e : c ≡ 91 = ground arith in let v' = rw e at v in cc
  | inr f ↦ f
]

same-number : (number : Name) → ltb 0 (atoi number) ≡ true → same number star ≡ false
unfolding atoi digits
same-number number v = elim (Bool-cases (same number star)) [
  | inl t ↦ let v' = rw (eq_of_same number star t) at v in cc
  | inr f ↦ f
]

alias_token-append :
    (c : ℕ) (alias : Name) (node : List ElementNode)
    → All (λ d. d ≢ 93) alias
    → alias_token (c ∷ alias ++ 93 ∷ []) node ≡ chain (token_of (alias_of c alias) node ∷ [])
unfolding alias_token token_of
alias_token-append c alias node h = rw (alias_token, until_bracket-append alias h) refl

row_token-text_of :
    (s : Segment) (node : List ElementNode)
    → IsValid s
    → is_row_segment s ≡ true
    → row_token (text_of s) node ≡ chain (token_of s node ∷ [])
unfolding row_token text_of token_of same
row_token-text_of (plain name) node v k = cc
row_token-text_of (instance_number number) node v k =
    rw (opens_bracket-number number v.1, same-number number v.1, v.1) refl
row_token-text_of (alias_of c alias) node v k = alias_token-append c alias node v.1
row_token-text_of any_row node v k = refl

pub make_token-text_of :
    (s : Segment) (e : ElementNode) (reg : List ElementNode)
    → IsValid s
    → is_row (e ∷ reg) ≡ is_row_segment s
    → make_token (text_of s) (e ∷ reg) ≡ chain (token_of s (e ∷ reg) ∷ [])
unfolding make_token text_of token_of
make_token-text_of (plain name) e [] v k = refl
make_token-text_of (plain name) e (parent ∷ nodes) v k = rw k refl
make_token-text_of (instance_number number) e [] v k = cc
make_token-text_of (instance_number number) e (parent ∷ nodes) v k =
    rw k (row_token-text_of (instance_number number) (e ∷ parent ∷ nodes) v refl)
make_token-text_of (alias_of c alias) e [] v k = cc
make_token-text_of (alias_of c alias) e (parent ∷ nodes) v k =
    rw k (row_token-text_of (alias_of c alias) (e ∷ parent ∷ nodes) v refl)
make_token-text_of any_row e [] v k = cc
make_token-text_of any_row e (parent ∷ nodes) v k =
    rw k (row_token-text_of any_row (e ∷ parent ∷ nodes) v refl)
