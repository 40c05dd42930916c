-- ===== src/TokenChain/Create.antt =====
-- TokenChain_create on a name that is put together from its parts.
use mathlib.Core.List.{reverse, reverse-append}
use rbus.Base.{ℕ, ◌≡◌, refl, sym, ap, ◌∙◌, false, List, [], ◌∷◌, ◌++◌, append-nil, ◌==◌, arith}
use rbus.Base.Names.{Name}
use rbus.TokenChain.{ElementNode, chain, dot, skip_dot, is_single, create_tokens, is_empty, create}
use rbus.TokenChain.Scan.{NoDots, rev_join, All-reverse, scan-reverse, scan-first}
use rbus.TokenChain.Match.{Segment, text_of, tokens_of, Kinds}
use rbus.TokenChain.Parts.{
  AreValid, IsValid, print_name, SameDepth, texts, reverse-print_name, NoDots-text_of,
  is_empty-text_of, make_token-text_of,
}

is_empty-append : (a b : Name) → is_empty a ≡ false → is_empty (a ++ b) ≡ false
is_empty-append [] b h = cc
is_empty-append (c ∷ a) b h = refl

is_empty-snoc : (a : Name) (c : ℕ) → is_empty (a ++ c ∷ []) ≡ false
is_empty-snoc [] c = refl
is_empty-snoc (d ∷ a) c = refl

is_empty-reverse : (a : Name) → is_empty a ≡ false → is_empty (reverse a) ≡ false
is_empty-reverse [] h = cc
is_empty-reverse (c ∷ a) h =
    let e : reverse (c ∷ a) ≡ reverse a ++ c ∷ [] = reverse-append (c ∷ []) a in
    rw e (is_empty-snoc (reverse a) c)

is_empty-rev_join :
    (s : Segment) (segments : List Segment)
    → IsValid s
    → is_empty (rev_join (text_of s) (texts segments)) ≡ false
unfolding texts
is_empty-rev_join s [] v = is_empty-reverse (text_of s) (is_empty-text_of s v)
is_empty-rev_join s (u ∷ segments) v =
    is_empty-append (reverse (text_of s)) (dot ∷ rev_join (text_of u) (texts segments))
      (is_empty-reverse (text_of s) (is_empty-text_of s v))

is_single-cons : (c : ℕ) (l : List ℕ) → is_empty l ≡ false → is_single (c ∷ l) ≡ false
is_single-cons c [] h = cc
is_single-cons c (d ∷ l) h = refl

-- The search for a token from one that has been read, or from the end of the name.
create_tokens-rev_join :
    (source : List ℕ) (s : Segment) (segments : List Segment) (reg : List ElementNode)
    → is_single source ≡ false
    → skip_dot source ≡ rev_join (text_of s) (texts segments)
    → AreValid (s ∷ segments)
    → SameDepth (s ∷ segments) reg
    → Kinds (s ∷ segments) reg
    → create_tokens source reg ≡ chain (tokens_of (s ∷ segments) reg)
unfolding create_tokens tokens_of texts
create_tokens-rev_join source s segments [] n e v d k = absurd d
create_tokens-rev_join source s [] (e' ∷ []) n e v d k = absurd d
create_tokens-rev_join source s [] (e' ∷ root ∷ []) n e v d k =
    let (c, f) = scan-first (text_of s) (NoDots-text_of s v.0) (is_empty-text_of s v.0) in
    rw (n, e, f, make_token-text_of s e' (root ∷ []) v.0 k.0) refl
create_tokens-rev_join source s [] (e' ∷ root ∷ other ∷ reg) n e v d k = absurd d
create_tokens-rev_join source s (u ∷ segments) (e' ∷ []) n e v d k = absurd d
create_tokens-rev_join source s (u ∷ segments) (e' ∷ parent ∷ reg) n e v d k =
    let rest = rev_join (text_of u) (texts segments) in
    let f = scan-reverse (text_of s) rest (NoDots-text_of s v.0) in
    let m = is_single-cons dot rest (is_empty-rev_join u segments v.1.0) in
    let h = create_tokens-rev_join (dot ∷ rest) u segments (parent ∷ reg) m refl v.1 d k.1 in
    rw (n, e, f, make_token-text_of s e' (parent ∷ reg) v.0 k.0, h) refl

skip_dot-append : (l r : List ℕ) → NoDots l → is_empty l ≡ false → skip_dot (l ++ r) ≡ l ++ r
skip_dot-append [] r h n = cc
skip_dot-append (c ∷ l) r h n = let q : (c == dot) ≡ false = ground (arith, h.0) in rw q refl

skip_dot-rev_join :
    (s : Segment) (segments : List Segment)
    → IsValid s
    → skip_dot (rev_join (text_of s) (texts segments)) ≡ rev_join (text_of s) (texts segments)
unfolding texts
skip_dot-rev_join s [] v =
    let h = All-reverse (text_of s) (NoDots-text_of s v) in
    let n = is_empty-reverse (text_of s) (is_empty-text_of s v) in
    let e = append-nil (reverse (text_of s)) in
    ap skip_dot (sym e) ∙ skip_dot-append (reverse (text_of s)) [] h n ∙ e
skip_dot-rev_join s (u ∷ segments) v =
    skip_dot-append (reverse (text_of s)) (dot ∷ rev_join (text_of u) (texts segments))
      (All-reverse (text_of s) (NoDots-text_of s v))
      (is_empty-reverse (text_of s) (is_empty-text_of s v))

is_single-snoc : (l : List ℕ) (d c : ℕ) → is_single ((l ++ d ∷ []) ++ c ∷ []) ≡ false
is_single-snoc [] d c = refl
is_single-snoc (b ∷ []) d c = refl
is_single-snoc (b ∷ b' ∷ l) d c = refl

is_single-reverse : (l : List ℕ) → is_single l ≡ false → is_single (reverse l) ≡ false
is_single-reverse [] h = refl
is_single-reverse (c ∷ []) h = cc
is_single-reverse (c ∷ d ∷ l) h =
    let e : reverse (c ∷ d ∷ l) ≡ reverse (d ∷ l) ++ c ∷ [] = reverse-append (c ∷ []) (d ∷ l) in
    let f : reverse (d ∷ l) ≡ reverse l ++ d ∷ [] = reverse-append (d ∷ []) l in
    rw (e, f) (is_single-snoc (reverse l) d c)

is_empty-print_name :
    (s : Segment) (segments : List Segment)
    → AreValid (s ∷ segments)
    → is_empty (print_name s segments) ≡ false
unfolding print_name
is_empty-print_name s [] v = is_empty-text_of s v.0
is_empty-print_name s (u ∷ segments) v =
    is_empty-append (print_name u segments) (dot ∷ text_of s) (is_empty-print_name u segments v.1)

-- TokenChain_create gives a token for every part, of the part's type and in order, for a name of more
-- than one character that is put together from valid parts, one for each node below the root, where
-- the parts that name rows stand for the nodes below tables.
pub create-print_name :
    (s : Segment) (segments : List Segment) (reg : List ElementNode)
    → is_single (print_name s segments) ≡ false
    → AreValid (s ∷ segments)
    → SameDepth (s ∷ segments) reg
    → Kinds (s ∷ segments) reg
    → create (print_name s segments) reg ≡ chain (tokens_of (s ∷ segments) reg)
unfolding create
create-print_name s segments reg n v d k =
    let e = reverse-print_name s segments in
    let m = sym (ap is_single e) ∙ is_single-reverse (print_name s segments) n in
    let h = create_tokens-rev_join _ s segments reg m (skip_dot-rev_join s segments v.0) v d k in
    rw (is_empty-print_name s segments v, e) h
