-- ===== src/RoutingTree/Tokens/Bounds.antt =====
-- The sizes of what tokenizeExpression writes.
use rbus.Base.{
  ℕ, suc, ◌+◌, ◌≡◌, refl, Bool, true, false, not, ◌||◌, ◌&&◌, none, some, List, [], ◌∷◌, leb, ◌==◌,
  if◌then◌else◌, length, arith, ◌<◌, Bool-cases, inl, inr, ◌≤◌,
}
use rbus.Base.Names.{Name}
use rbus.RoutingTree.Tokens.{
  ends_with_dot, dot, starts_with_dot, count_tokens, is_valid, within_limits, put_char, tokens_from,
  tokens, bytes_used, tokenize,
}

abbrev pub dots : List ℕ → ℕ
dots [] = 0
dots (c ∷ cs) = (if c == dot then 1 else 0) + dots cs

abbrev one_less : Bool → ℕ
one_less b = if b then 0 else 1

abbrev Nonempty : List Name → Type 0
Nonempty [] = ⊥
Nonempty (t ∷ ts) = Unit

sizes_step :
    (c : ℕ) (ts : List Name) (k b e : ℕ)
    → Nonempty ts
    → length ts ≡ k + e
    → bytes_used ts ≡ b + e
    → (length (if c == dot then [] ∷ ts else put_char c ts) ≡ (if c == dot then 1 else 0) + k + e)
      × (bytes_used (if c == dot then [] ∷ ts else put_char c ts) ≡ suc b + e)
sizes_step c [] k b e h l u = absurd h
sizes_step c (t ∷ ts) k b e h l u = (ground arith, ground arith)

put_char-Nonempty : (c : ℕ) (ts : List Name) → Nonempty (put_char c ts)
put_char-Nonempty c [] = tt
put_char-Nonempty c (t ∷ ts) = tt

tokens_from-Nonempty : (cs : List ℕ) → Nonempty (tokens_from cs)
unfolding tokens_from
tokens_from-Nonempty [] = tt
tokens_from-Nonempty (c ∷ cs) = elim (Bool-cases (c == dot)) [
  | inl e ↦ rw e tt
  | inr e ↦ rw e (put_char-Nonempty c (tokens_from cs))
]

tokens_from-cons :
    (c d : ℕ) (cs : List ℕ)
    → tokens_from (c ∷ d ∷ cs)
      ≡ (if c == dot then [] ∷ tokens_from (d ∷ cs) else put_char c (tokens_from (d ∷ cs)))
unfolding tokens_from
tokens_from-cons c d cs = refl

tokens_from_sizes :
    (cs : List ℕ)
    → (length (tokens_from cs) ≡ dots cs + one_less (ends_with_dot cs))
      × (bytes_used (tokens_from cs) ≡ length cs + one_less (ends_with_dot cs))
unfolding tokens_from
tokens_from_sizes [] = (refl, refl)
tokens_from_sizes (c ∷ []) = (ground arith, ground arith)
tokens_from_sizes (c ∷ d ∷ cs) =
    let ih = tokens_from_sizes (d ∷ cs) in
    rw (tokens_from-cons c d cs) (
      sizes_step c (tokens_from (d ∷ cs)) (dots (d ∷ cs)) (length (d ∷ cs)) _
        (tokens_from-Nonempty (d ∷ cs)) ih.0 ih.1)

-- Two dots in a row.
abbrev pub doubled : List ℕ → Bool
doubled [] = false
doubled (c ∷ cs) = (c == dot) && starts_with_dot cs || doubled cs

count_tokens_lem :
    (cs : List ℕ) (n k : ℕ)
    → count_tokens cs n k ≡ (if doubled cs then none else some (n + dots cs, k + length cs))
unfolding count_tokens
count_tokens_lem [] n k = ground arith
count_tokens_lem (c ∷ cs) n k =
    rw (count_tokens_lem cs (if c == dot then n + 1 else n) (k + 1)) (ground arith)

is_valid_lem :
    (expression : List ℕ)
    → is_valid expression
      ≡ (not (doubled expression) && leb (dots expression) 32 && leb (length expression) 512)
unfolding is_valid within_limits
is_valid_lem expression = rw (count_tokens_lem expression 0 0) (ground arith)

tokenize_lem :
    (expression : List ℕ)
    → 0 < length expression
    → dots expression ≤ 32
    → length expression ≤ 512
    → ends_with_dot expression ≡ false
    → tokenize expression ≡ (
        if leb 32 (dots expression) || leb 512 (length expression)
        then none
        else some (tokens expression))
unfolding tokenize tokens
tokenize_lem [] h d l e = absurd (omega arith)
tokenize_lem (c ∷ cs) h d l e =
    let s = tokens_from_sizes (c ∷ cs) in
    let n : length (tokens_from (c ∷ cs)) ≡ dots (c ∷ cs) + 1 = rw e at s.0 in
    let u : bytes_used (tokens_from (c ∷ cs)) ≡ length (c ∷ cs) + 1 = rw e at s.1 in
    rw (n, u) (ground arith)

-- validateExpression accepts an expression exactly if it has no two dots in a row, 32 dots at most
-- and 512 characters at most. Of those that it accepts, and that are not empty and do not end in a
-- dot, the ones with 32 dots or 512 characters make tokenizeExpression write behind its arrays, and
-- no others.
pub tokenize_bounds :
    (expression : List ℕ)
    → (is_valid expression
        ≡ (not (doubled expression) && leb (dots expression) 32 && leb (length expression) 512))
      × (is_valid expression ≡ true
          → 0 < length expression
          → ends_with_dot expression ≡ false
          → tokenize expression ≡ (
              if leb 32 (dots expression) || leb 512 (length expression)
              then none
              else some (tokens expression)))
tokenize_bounds expression =
    let v = is_valid_lem expression in
    (v, λ h n e. tokenize_lem expression n (ground (arith, v)) (ground (arith, v)) e)
