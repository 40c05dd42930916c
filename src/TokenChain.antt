-- ===== src/TokenChain.antt =====
-- src/rbus/rbus_tokenchain.c: a name of a subscription as tokens, and its test against an element of
-- the tree. An element is the list of the nodes from it up to the root, which has no parent. The name
-- is read backwards, so `source` is the list of its characters from the last one; its head stands for
-- `*ptr`, and one character alone for `ptr == name`.
pub mod Scan
pub mod Match
pub mod Parts
pub mod Create
mod Tests
use rbus.Base.{
  ℕ, zero, suc, ◌+◌, ◌-◌, ◌*◌, Bool, true, false, ◌&&◌, ◌||◌, Option, none, some, List, [], ◌∷◌,
  ◌++◌, leb, ltb, ◌==◌, if◌then◌else◌,
}
use mathlib.Core.List.{reverse}
use rbus.Base.Names.{Name, same}

-- The fields of elementNode that a token chain reads.
pub record ElementNode : Type 0 where
  pub name : Name
  pub type : ℕ
  pub alias : Option Name

-- RBUS_ELEMENT_TYPE_TABLE
abbrev pub element_type_table : ℕ
element_type_table = 2

pub data TokenType : Type 0 where
  non_row aliased inst_num wildcard : TokenType

-- A token with the node that it was made for and that node's ancestors.
pub record Token : Type 0 where
  pub text : Name
  pub node : List ElementNode
  pub type : TokenType

-- The result of TokenChain_create: the tokens from the last one, NULL, or a search for a bracket that
-- has left the text of its token.
pub data Created : Type 0 where
  chain : List Token → Created
  refused : Created
  left_token : Created

abbrev pub is_table : ElementNode → Bool
is_table e = e.type == element_type_table

abbrev pub dot : ℕ
dot = 46

-- The walk back over the characters of a token, and the text of the token.
unfoldable pub scan : Name → List ℕ → Name × List ℕ
scan text [] = (text, [])
scan text (c ∷ []) = if c == dot then (text, c ∷ []) else (c ∷ text, c ∷ [])
scan text (c ∷ d ∷ source) =
    let rest = scan (c ∷ text) (d ∷ source) in if c == dot then (text, c ∷ d ∷ source) else rest

-- The step over a dot.
abbrev pub skip_dot : List ℕ → List ℕ
skip_dot [] = []
skip_dot (c ∷ source) = if c == dot then source else c ∷ source

abbrev pub is_space : ℕ → Bool
is_space c = c == 32 || (leb 9 c && leb c 13)

abbrev pub is_digit : ℕ → Bool
is_digit c = leb 48 c && leb c 57

-- The digits at the start of a text, read as a number.
unfoldable pub digits : Name → ℕ → ℕ
digits [] n = n
digits (c ∷ text) n = let rest = digits text (n * 10 + (c - 48)) in if is_digit c then rest else n

abbrev pub after_sign : Name → ℕ
after_sign [] = 0
after_sign (c ∷ text) =
    if c == 45 then 0 else if c == 43 then digits text 0 else digits (c ∷ text) 0

-- `atoi`, with 0 in place of a negative number.
unfoldable pub atoi : Name → ℕ
atoi [] = 0
atoi (c ∷ text) = let rest = atoi text in if is_space c then rest else after_sign (c ∷ text)

abbrev pub star : Name
star = 42 ∷ []

-- The text in front of the closing bracket.
unfoldable pub until_bracket : Name → Option Name
until_bracket [] = none
until_bracket (c ∷ text) =
    let rest = until_bracket text in
    if c == 93 then some [] else elim rest [ none ↦ none | some alias ↦ some (c ∷ alias) ]

-- The text behind the opening bracket: the search starts behind its first character.
unfoldable pub alias_token : Name → List ElementNode → Created
alias_token [] node = left_token
alias_token (c ∷ text) node = elim (until_bracket text) [
  | none ↦ left_token
  | some rest ↦ chain (record { text = c ∷ rest; node = node; type = aliased } ∷ [])
]

abbrev pub opens_bracket : Name → Bool
opens_bracket [] = false
opens_bracket (c ∷ text) = c == 91

abbrev pub tail : Name → Name
tail [] = []
tail (c ∷ text) = text

-- A token for a row of a table.
unfoldable pub row_token : Name → List ElementNode → Created
row_token text node =
    if opens_bracket text
    then alias_token (tail text) node
    else if same text star
    then chain (record { text = text; node = node; type = wildcard } ∷ [])
    else if ltb 0 (atoi text)
    then chain (record { text = text; node = node; type = inst_num } ∷ [])
    else refused

unfoldable pub make_token : Name → List ElementNode → Created
make_token text [] = refused
make_token text (e ∷ []) = chain (record { text = text; node = e ∷ []; type = non_row } ∷ [])
make_token text (e ∷ parent ∷ nodes) =
    if is_table parent
    then row_token text (e ∷ parent ∷ nodes)
    else chain (record { text = text; node = e ∷ parent ∷ nodes; type = non_row } ∷ [])

-- The tokens of the rest are made only once this one is.
abbrev pub link : Created → Created → Created
link (chain tokens) (chain more) = chain (tokens ++ more)
link (chain tokens) refused = refused
link (chain tokens) left_token = left_token
link refused rest = refused
link left_token rest = left_token

abbrev pub is_single : List ℕ → Bool
is_single (c ∷ []) = true
is_single _ = false

-- The loop of TokenChain_create and the test behind it.
unfoldable pub create_tokens : List ℕ → List ElementNode → Created
create_tokens source [] = refused
create_tokens source (e ∷ []) = if is_single source then chain [] else refused
create_tokens source (e ∷ parent ∷ nodes) =
    let (text, source') = scan [] (skip_dot source) in
    let rest = create_tokens source' (parent ∷ nodes) in
    if is_single source then refused else link (make_token text (e ∷ parent ∷ nodes)) rest

abbrev pub is_empty : Name → Bool
is_empty [] = true
is_empty (c ∷ name) = false

-- TokenChain_create, for a node and a name that are not NULL.
unfoldable pub create : Name → List ElementNode → Created
create source_name node =
    if is_empty source_name then refused else create_tokens (reverse source_name) node

-- Whether the token's node is a row.
abbrev pub is_row : List ElementNode → Bool
is_row [] = false
is_row (e ∷ []) = false
is_row (e ∷ parent ∷ nodes) = is_table parent

abbrev pub same_type : List ElementNode → ElementNode → Bool
same_type [] inst = false
same_type (e ∷ nodes) inst = e.type == inst.type

-- The outcome of the comparison of a token with a node: whether it fits, and whether `rc` holds the
-- result of a comparison. `none` is a read of `rc` where no comparison has set it yet, and a failed
-- assertion.
abbrev pub compare_alias : Option Name → Name → Bool → Option (Bool × Bool)
compare_alias none text compared = if compared then some (true, true) else none
compare_alias (some alias) text compared = some (same alias text, true)

abbrev pub compare_row : TokenType → ElementNode → Name → Bool → Option (Bool × Bool)
compare_row inst_num inst text compared = some (same inst.name text, true)
compare_row aliased inst text compared = compare_alias inst.alias text compared
compare_row wildcard inst text compared = some (true, compared)
compare_row non_row inst text compared = none

unfoldable pub compare_token : Token → ElementNode → ElementNode → Bool → Option (Bool × Bool)
compare_token token inst parent compared =
    if same_type token.node inst
    then (if is_row token.node
        then (if is_table parent
            then compare_row token.type inst token.text compared
            else some (false, compared))
        else some (same inst.name token.text, true))
    else some (false, compared)

-- The loop of TokenChain_match and the test behind it.
unfoldable pub match_tokens : List Token → List ElementNode → Bool → Option Bool
match_tokens tokens [] compared = none
match_tokens [] (inst ∷ []) compared = some true
match_tokens [] (inst ∷ parent ∷ nodes) compared = some false
match_tokens (token ∷ tokens) (inst ∷ []) compared = some false
match_tokens (token ∷ tokens) (inst ∷ parent ∷ nodes) compared =
    elim (compare_token token inst parent compared) [
      | none ↦ none
      | some (fits, compared') ↦ elim fits [
        | true ↦ match_tokens tokens (parent ∷ nodes) compared'
        | false ↦ some false
      ]
    ]

-- TokenChain_match, for a chain and an element that are not NULL.
unfoldable pub match : List Token → List ElementNode → Option Bool
match tokens inst_node = match_tokens tokens inst_node false
