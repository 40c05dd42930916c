-- ===== src/TokenChain/Match.antt =====
-- What a name of a subscription means, and TokenChain_match against it.
use rbus.Base.{
  ◌∙◌, ap, ℕ, ◌≡◌, refl, Bool, true, false, ◌&&◌, Option, none, some, List, [], ◌∷◌, ◌++◌, ◌==◌,
  if◌then◌else◌,
}
use rbus.Base.Names.{Name, same}
use rbus.TokenChain.{
  ElementNode, Token, non_row, aliased, inst_num, wildcard, is_table, star, is_row, compare_alias,
  compare_token, match_tokens,
}

-- One part of a name: a plain name, or a row by its number, by its alias (a first character and the
-- others), or any.
pub data Segment : Type 0 where
  plain instance_number : Name → Segment
  alias_of : ℕ → Name → Segment
  any_row : Segment

-- How the part is written.
unfoldable pub text_of : Segment → Name
text_of (plain name) = name
text_of (instance_number number) = number
text_of (alias_of c alias) = 91 ∷ c ∷ alias ++ 93 ∷ []
text_of any_row = star

-- Its token.
unfoldable pub token_of : Segment → List ElementNode → Token
token_of (plain name) node = record { text = name; node = node; type = non_row }
token_of (instance_number number) node = record { text = number; node = node; type = inst_num }
token_of (alias_of c alias) node = record { text = c ∷ alias; node = node; type = aliased }
token_of any_row node = record { text = star; node = node; type = wildcard }

-- The parts are given from the last one, as the nodes are.
unfoldable pub tokens_of : List Segment → List ElementNode → List Token
tokens_of [] node = []
tokens_of (s ∷ segments) [] = []
tokens_of (s ∷ segments) (e ∷ nodes) = token_of s (e ∷ nodes) ∷ tokens_of segments nodes

abbrev pub has_alias : Option Name → Name → Bool
has_alias none alias = false
has_alias (some other) alias = same other alias

-- The part stands for the node.
unfoldable pub means : Segment → ElementNode → Bool
means (plain name) inst = same inst.name name
means (instance_number number) inst = same inst.name number
means (alias_of c alias) inst = has_alias inst.alias (c ∷ alias)
means any_row inst = true

-- The parts, for the nodes of the registration, stand for the element: node for node the types are
-- the same, rows stand below tables, and both end at their root.
unfoldable pub stands_for : List Segment → List ElementNode → List ElementNode → Bool
stands_for segments reg [] = false
stands_for [] reg (inst ∷ []) = true
stands_for [] reg (inst ∷ parent ∷ nodes) = false
stands_for (s ∷ segments) reg (inst ∷ []) = false
stands_for (s ∷ segments) [] (inst ∷ parent ∷ nodes) = false
stands_for (s ∷ segments) (e ∷ reg) (inst ∷ parent ∷ nodes) =
    (e.type == inst.type)
    && ((if is_row (e ∷ reg) then is_table parent else true)
        && (means s inst && stands_for segments reg (parent ∷ nodes)))

-- Plain names where there is no row, and the others where there is one.
abbrev pub is_row_segment : Segment → Bool
is_row_segment (plain name) = false
is_row_segment _ = true

-- A row that a part asks the alias of has one.
abbrev pub NeedsAlias : Segment → Option Name → Type 0
NeedsAlias (alias_of c alias) none = ⊥
NeedsAlias _ _ = Unit

abbrev pub HasAliases : List Segment → List ElementNode → Type 0
HasAliases [] nodes = Unit
HasAliases (s ∷ segments) [] = Unit
HasAliases (s ∷ segments) (inst ∷ nodes) = NeedsAlias s inst.alias × HasAliases segments nodes

-- Each part is of the kind of its node.
abbrev pub Kinds : List Segment → List ElementNode → Type 0
Kinds [] reg = Unit
Kinds (s ∷ segments) [] = ⊥
Kinds (s ∷ segments) (e ∷ reg) = (is_row (e ∷ reg) ≡ is_row_segment s) × Kinds segments reg

abbrev pick : Bool → Option (Bool × Bool) → Bool → Option (Bool × Bool)
pick t o c = if t then o else some (false, c)

plain_case : (t v c : Bool) → (x : Bool) × (pick t (some (v, true)) c ≡ some (t && v, x))
plain_case true v c = (true, refl)
plain_case false v c = (c, refl)

row_case :
    (t p v w c : Bool) → (x : Bool) × (pick t (pick p (some (v, w)) c) c ≡ some (t && (p && v), x))
row_case true true v w c = (w, refl)
row_case true false v w c = (c, refl)
row_case false p v w c = (c, refl)

compare_alias-has_alias :
    (o : Option Name) (c : ℕ) (alias : Name) (compared : Bool)
    → NeedsAlias (alias_of c alias) o
    → compare_alias o (c ∷ alias) compared ≡ some (has_alias o (c ∷ alias), true)
compare_alias-has_alias none c alias compared a = absurd a
compare_alias-has_alias (some other) c alias compared a = refl

-- The comparison of one token with one node, with what is known of `rc` behind it.
compare_token-means :
    (s : Segment) (e : ElementNode) (reg : List ElementNode) (inst parent : ElementNode)
    (compared : Bool)
    → is_row (e ∷ reg) ≡ is_row_segment s
    → NeedsAlias s inst.alias
    → (compared' : Bool) × (compare_token (token_of s (e ∷ reg)) inst parent compared
        ≡ some (
          (e.type == inst.type)
              && ((if is_row (e ∷ reg) then is_table parent else true) && means s inst),
          compared',
        ))
unfolding compare_token token_of means
compare_token-means (plain name) e reg inst parent compared k a =
    rw k (plain_case (e.type == inst.type) (same inst.name name) compared)
compare_token-means (instance_number number) e reg inst parent compared k a =
    rw k (row_case (e.type == inst.type) (is_table parent) (same inst.name number) true compared)
compare_token-means (alias_of c alias) e reg inst parent compared k a =
    rw (k, compare_alias-has_alias inst.alias c alias compared a)
      (row_case (e.type == inst.type) (is_table parent) (has_alias inst.alias (c ∷ alias)) true
        compared)
compare_token-means any_row e reg inst parent compared k a =
    rw k (row_case (e.type == inst.type) (is_table parent) true compared compared)

and_assoc : (a b c d : Bool) → ((a && (b && c)) && d) ≡ (a && (b && (c && d)))
and_assoc true true c d = refl
and_assoc true false c d = refl
and_assoc false b c d = refl

-- One round of the loop, whose rest does not depend on `rc`.
round :
    (o : Option (Bool × Bool)) (b c rest : Bool) (k : Bool → Option Bool)
    → o ≡ some (b, c)
    → k c ≡ some rest
    → elim o [
      | none ↦ none
      | some (fits, compared') ↦ elim fits [ true ↦ k compared' | false ↦ some false ]
    ]
      ≡ some (b && rest)
round o true c rest k e h = rw e h
round o false c rest k e h = rw e refl

pub match_tokens-stands_for :
    (segments : List Segment) (reg : List ElementNode) (inst : ElementNode)
    (nodes : List ElementNode) (compared : Bool)
    → Kinds segments reg
    → HasAliases segments (inst ∷ nodes)
    → match_tokens (tokens_of segments reg) (inst ∷ nodes) compared
      ≡ some (stands_for segments reg (inst ∷ nodes))
unfolding match_tokens tokens_of stands_for
match_tokens-stands_for [] reg inst [] compared k a = refl
match_tokens-stands_for [] reg inst (parent ∷ nodes) compared k a = refl
match_tokens-stands_for (s ∷ segments) [] inst nodes compared k a = absurd k
match_tokens-stands_for (s ∷ segments) (e ∷ reg) inst [] compared k a = refl
match_tokens-stands_for (s ∷ segments) (e ∷ reg) inst (parent ∷ nodes) compared k a =
    let (c, h) = compare_token-means s e reg inst parent compared k.0 a.0 in
    let r =
      round (compare_token (token_of s (e ∷ reg)) inst parent compared) _ c
        (stands_for segments reg (parent ∷ nodes))
        (λ (x : Bool). match_tokens (tokens_of segments reg) (parent ∷ nodes) x) h
        (match_tokens-stands_for segments reg parent nodes c k.1 a.1) in
    r
    ∙ ap (λ (x : Bool). some x)
        (and_assoc (e.type == inst.type) (if is_row (e ∷ reg) then is_table parent else true)
          (means s inst) (stands_for segments reg (parent ∷ nodes)))
