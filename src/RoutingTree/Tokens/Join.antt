-- ===== src/RoutingTree/Tokens/Join.antt =====
-- The tokens of an expression that is put together from tokens.
use rbus.Base.{
  ℕ, ◌≡◌, ◌≢◌, refl, false, List, [], ◌∷◌, ◌++◌, append-nil, ◌==◌, arith, ◌≤◌, length, some,
}
use rbus.Base.Bytes.{All}
use rbus.Base.Names.{Name}
use rbus.RoutingTree.Tokens.{dot, is_empty, tokens_from, tokens, tokenize, bytes_used}

abbrev pub IsToken : Name → Type 0
IsToken t = All (λ c. c ≢ dot) t

-- `%s.%s` along the tokens, as createTreeTopic puts a full name together.
abbrev pub join : Name → List Name → List ℕ
join t [] = t
join t (u ∷ us) = t ++ dot ∷ join u us

abbrev pub last_of : Name → List Name → Name
last_of t [] = t
last_of t (u ∷ us) = last_of u us

tokens_from-token :
    (t : Name) (rest : List ℕ) (ts : List Name)
    → IsToken t
    → tokens_from rest ≡ [] ∷ ts
    → tokens_from (t ++ rest) ≡ t ∷ ts
unfolding tokens_from
tokens_from-token [] rest ts h e = e
tokens_from-token (c ∷ t) rest ts h e =
    let n : (c == dot) ≡ false = ground (arith, h.0) in rw (n, tokens_from-token t rest ts h.1 e)

join_not_empty :
    (u : Name) (us : List Name) → is_empty (last_of u us) ≡ false → is_empty (join u us) ≡ false
join_not_empty u [] h = h
join_not_empty [] (v ∷ us) h = refl
join_not_empty (c ∷ u) (v ∷ us) h = refl

tokens_from-join :
    (t : Name) (ts : List Name)
    → IsToken t
    → All IsToken ts
    → is_empty (last_of t ts) ≡ false
    → tokens_from (join t ts) ≡ t ∷ ts
unfolding tokens_from
tokens_from-join t [] h k e = let x = tokens_from-token t [] [] h refl in rw (append-nil t) at x
tokens_from-join t (u ∷ us) h k e =
    tokens_from-token t (dot ∷ join u us) (u ∷ us) h
      (rw (join_not_empty u us e, tokens_from-join u us k.0 k.1 e))

tokens-join :
    (t : Name) (ts : List Name)
    → IsToken t
    → All IsToken ts
    → is_empty (last_of t ts) ≡ false
    → tokens (join t ts) ≡ t ∷ ts
unfolding tokens
tokens-join t ts h k e = rw (join_not_empty t ts e) (tokens_from-join t ts h k e)

-- Tokens without dots, the last of which is not empty, are joined by dots. If they are 32 at most, and
-- take 512 bytes at most, each with its NUL, then tokenizeExpression stays inside its arrays and finds
-- them again, in their order.
pub tokenize-join :
    (t : Name) (ts : List Name)
    → IsToken t
    → All IsToken ts
    → is_empty (last_of t ts) ≡ false
    → length (t ∷ ts) ≤ 32
    → bytes_used (t ∷ ts) ≤ 512
    → tokenize (join t ts) ≡ some (t ∷ ts)
unfolding tokenize
tokenize-join t ts h k e n m = rw (tokens-join t ts h k e) (ground arith)
