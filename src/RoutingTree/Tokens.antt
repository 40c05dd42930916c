-- ===== src/RoutingTree/Tokens.antt =====
-- validateExpression and tokenizeExpression of src/rtmessage/rtRoutingTree.c. An expression is the
-- list of its characters. The tokens and their NULs go to arrays of 32 tokens and of 512 bytes,
-- which tokenizeExpression does not check: a write behind one is the fault `none`.
pub mod Bounds
pub mod Join
use rbus.Base.{
  ℕ, suc, ◌+◌, Bool, true, false, not, ◌||◌, ◌&&◌, Option, none, some, List, [], ◌∷◌, ltb, leb,
  ◌==◌, if◌then◌else◌, length,
}
use rbus.Base.Names.{Name}

abbrev pub dot : ℕ
dot = 46

abbrev pub max_tokens : ℕ
max_tokens = 32

abbrev pub max_token_buffer_size : ℕ
max_token_buffer_size = 512

abbrev pub starts_with_dot : List ℕ → Bool
starts_with_dot [] = false
starts_with_dot (c ∷ cs) = c == dot

-- The loop of validateExpression: token_count and token_length, or `none` at two dots in a row.
unfoldable pub count_tokens : List ℕ → ℕ → ℕ → Option (ℕ × ℕ)
count_tokens [] tokens chars = some (tokens, chars)
count_tokens (c ∷ cs) tokens chars =
    let rest = count_tokens cs (if c == dot then tokens + 1 else tokens) (chars + 1) in
    if (c == dot) && starts_with_dot cs then none else rest

within_limits : Option (ℕ × ℕ) → Bool
within_limits none = false
within_limits (some (tokens, chars)) =
    not (ltb max_token_buffer_size chars || ltb max_tokens tokens)

-- validateExpression gives 0.
unfoldable pub is_valid : List ℕ → Bool
unfolding within_limits
is_valid expression = within_limits (count_tokens expression 0 0)

-- `*to++ = *from++`
abbrev pub put_char : ℕ → List Name → List Name
put_char c [] = (c ∷ []) ∷ []
put_char c (t ∷ ts) = (c ∷ t) ∷ ts

abbrev pub is_empty : List ℕ → Bool
is_empty [] = true
is_empty (c ∷ cs) = false

-- The tokens from inside a token on: a dot ends it, and the end of the expression does.
unfoldable pub tokens_from : List ℕ → List Name
tokens_from [] = [] ∷ []
tokens_from (c ∷ cs) =
    let rest = tokens_from cs in
    if c == dot then [] ∷ (if is_empty cs then [] else rest) else put_char c rest

unfoldable pub tokens : List ℕ → List Name
tokens expression = if is_empty expression then [] else tokens_from expression

-- The bytes of workBuffer that the tokens take, each with its NUL.
abbrev pub bytes_used : List Name → ℕ
bytes_used [] = 0
bytes_used (t ∷ ts) = length t + 1 + bytes_used ts

-- tokenizeExpression
unfoldable pub tokenize : List ℕ → Option (List Name)
tokenize expression =
    let ts = tokens expression in
    if leb (length ts) max_tokens && leb (bytes_used ts) max_token_buffer_size
    then some ts
    else none

-- `topic[strlen(topic)-1] == '.'`
abbrev pub ends_with_dot : List ℕ → Bool
ends_with_dot [] = false
ends_with_dot (c ∷ cs) = if is_empty cs then c == dot else ends_with_dot cs
