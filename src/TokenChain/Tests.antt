-- ===== src/TokenChain/Tests.antt =====
-- Chains of tokens at concrete names and elements, and the theorem at one of them.
use rbus.Base.{◌≡◌, refl, ℕ, true, Option, none, some, List, [], ◌∷◌}
use rbus.Base.Names.{Name, same}
use rbus.TokenChain.{
  ElementNode, Token, chain, refused, left_token, create, create_tokens, scan, make_token,
  row_token, alias_token, until_bracket, atoi, digits, match, match_tokens, compare_token,
}
use rbus.TokenChain.Match.{Segment, plain, alias_of, text_of, token_of, tokens_of}
use rbus.TokenChain.Parts.{print_name}

abbrev node_of : ℕ → ℕ → Option Name → ElementNode
node_of c type alias = record { name = c ∷ []; type = type; alias = alias }

-- The registration of `T.{i}.S`, and the element `T.1.S`, whose row has an alias or none.
abbrev registered : List ElementNode
registered = node_of 83 1 none ∷ node_of 123 0 none ∷ node_of 84 2 none ∷ node_of 82 0 none ∷ []

abbrev element : Option Name → List ElementNode
element alias = node_of 83 1 none ∷ node_of 49 0 alias ∷ node_of 84 2 none ∷ node_of 82 0 none ∷ []

-- `T.[ap].S`
abbrev by_alias : List Segment
by_alias = alias_of 97 (112 ∷ []) ∷ plain (84 ∷ []) ∷ []

abbrev by_alias_tokens : List Token
by_alias_tokens = tokens_of (plain (83 ∷ []) ∷ by_alias) registered

printed : print_name (plain (83 ∷ [])) by_alias ≡ 84 ∷ 46 ∷ 91 ∷ 97 ∷ 112 ∷ 93 ∷ 46 ∷ 83 ∷ []
unfolding print_name text_of
printed = refl

made : create (84 ∷ 46 ∷ 91 ∷ 97 ∷ 112 ∷ 93 ∷ 46 ∷ 83 ∷ []) registered ≡ chain by_alias_tokens
unfolding create create_tokens scan make_token row_token alias_token until_bracket tokens_of
    token_of
made = refl

-- `T.[ap.S` and `T.x.S` have no tokens, nor has a name of one character.
no_bracket : create (84 ∷ 46 ∷ 91 ∷ 97 ∷ 112 ∷ 46 ∷ 83 ∷ []) registered ≡ left_token
unfolding create create_tokens scan make_token row_token alias_token until_bracket
no_bracket = refl

no_number : create (84 ∷ 46 ∷ 120 ∷ 46 ∷ 83 ∷ []) registered ≡ refused
unfolding create create_tokens scan make_token row_token same atoi digits
no_number = refl

one_character : create (83 ∷ []) (node_of 83 1 none ∷ node_of 82 0 none ∷ []) ≡ refused
unfolding create create_tokens
one_character = refl

two_characters :
    create (83 ∷ 83 ∷ []) (node_of 83 1 none ∷ node_of 82 0 none ∷ [])
    ≡ chain (tokens_of (plain (83 ∷ 83 ∷ []) ∷ []) (node_of 83 1 none ∷ node_of 82 0 none ∷ []))
unfolding create create_tokens scan make_token tokens_of token_of
two_characters = refl

-- A row without an alias matches `T.[ap].S`: `rc` keeps the 0 of the comparison of `S`.
row_without_alias : match by_alias_tokens (element none) ≡ some true
unfolding match match_tokens compare_token tokens_of token_of same
row_without_alias = refl

-- Where the row itself is the element, `rc` has no value.
no_comparison :
    match
      (tokens_of by_alias (node_of 123 0 none ∷ node_of 84 2 none ∷ node_of 82 0 none ∷ []))
      (node_of 49 0 none ∷ node_of 84 2 none ∷ node_of 82 0 none ∷ [])
    ≡ none
unfolding match match_tokens compare_token tokens_of token_of
no_comparison = refl
