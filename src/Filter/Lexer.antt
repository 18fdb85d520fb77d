-- ===== src/Filter/Lexer.antt =====
-- src/util/ConnectionFilter.cpp, class Lexer. The lexer is the input that is left and its position.
pub mod Progress
use qiftop.Common.{
  ℕ, suc, ◌+◌, ◌≡◌, Bool, true, false, not, ◌&&◌, ◌||◌, List, [], ◌∷◌, ◌++◌, Option, none, some,
  if◌then◌else◌, ◌==◌, nat_eq, list_eq, drop, length,
}
use qiftop.Flow.Types.{Text}
use qiftop.Flow.Wire.{utf16}
use qiftop.Filter.Qt.{Qt}

pub data TokType : Type 0 where
  ident string op lparen rparen and or not_tok end : TokType

pub record Token : Type 0 where
  pub type : TokType
  pub text : Text
  pub pos : ℕ

pub record Lexer : Type 0 where
  pub rest : Text
  pub pos : ℕ

-- The characters that end a bareword.
abbrev pub specials : Text
specials = utf16 "()<>=!~:&|"

pub mem_char : ℕ → Text → Bool
mem_char c [] = false
mem_char c (x ∷ xs) = x == c || mem_char c xs

-- A token of one or two characters that the input begins with: its type, its text, its length.
record Symbol : Type 0 where
  type : TokType
  text : Text
  width : ℕ

abbrev symbol : TokType → Text → ℕ → Option Symbol
symbol t s n = some (record { type = t; text = s; width = n })

-- The input goes on with `c`.
abbrev follows : ℕ → Text → Bool
follows c [] = false
follows c (x ∷ xs) = x == c

symbol_at : ℕ → Text → Option Symbol
symbol_at ch more =
    if ch == b'('
    then symbol lparen (utf16 "(") 1
    else if ch == b')'
    then symbol rparen (utf16 ")") 1
    else if ch == b':'
    then symbol op (utf16 ":") 1
    else if ch == b'~'
    then symbol op (utf16 "~") 1
    else if ch == b'='
    then symbol op (utf16 "=") 1
    else if ch == b'!'
    then (if follows b'=' more then symbol op (utf16 "!=") 2 else symbol not_tok (utf16 "!") 1)
    else if ch == b'<'
    then (if follows b'=' more then symbol op (utf16 "<=") 2 else symbol op (utf16 "<") 1)
    else if ch == b'>'
    then (if follows b'=' more then symbol op (utf16 ">=") 2 else symbol op (utf16 ">") 1)
    else if ch == b'&' && follows b'&' more
    then symbol and (utf16 "&&") 2
    else if ch == b'|' && follows b'|' more
    then symbol or (utf16 "||") 2
    else none

-- The text of a quoted string, and the lexer behind its closing quote.
read_quoted : ℕ → Text → Text → ℕ → Text × Lexer
read_quoted quote s [] pos = (s, record { rest = []; pos = pos })
read_quoted quote s (c ∷ []) pos =
    if c == quote
    then (s, record { rest = []; pos = pos + 1 })
    else (s ++ c ∷ [], record { rest = []; pos = pos + 1 })
read_quoted quote s (c ∷ d ∷ more) pos = elim (c == quote) [
  | true ↦ (s, record { rest = d ∷ more; pos = pos + 1 })
  | false ↦ elim (c == b'\\') [
    | true ↦ read_quoted quote (s ++ d ∷ []) more (pos + 2)
    | false ↦ read_quoted quote (s ++ c ∷ []) (d ∷ more) (pos + 1)
  ]
]

module _ {Num Rx : Type 0} (q : Qt Num Rx) where
  skip_ws : Text → ℕ → Lexer
  skip_ws [] pos = record { rest = []; pos = pos }
  skip_ws (c ∷ more) pos =
      if q.is_space c then skip_ws more (pos + 1) else record { rest = c ∷ more; pos = pos }

  -- A bareword, and the lexer behind it.
  read_word : Text → Text → ℕ → Text × Lexer
  read_word word [] pos = (word, record { rest = []; pos = pos })
  read_word word (c ∷ more) pos =
      let rest = read_word (word ++ c ∷ []) more (pos + 1) in
      if q.is_space c || mem_char c specials
      then (word, record { rest = c ∷ more; pos = pos })
      else rest

  -- The keywords.
  word_type : Text → TokType
  word_type word =
      let lower = q.to_lower word in
      if lower == utf16 "and"
      then and
      else if lower == utf16 "or"
      then or
      else if lower == utf16 "not"
      then not_tok
      else ident

  abbrev is_quote : ℕ → Bool
  is_quote c = c == b'"' || c == b'\''

  -- From the first character that is no space.
  next_from : Text → ℕ → Token × Lexer
  next_from [] pos = (record { type = end; text = []; pos = pos }, record { rest = []; pos = pos })
  next_from (ch ∷ more) pos = elim (symbol_at ch more) [
    | some s ↦ (
      record { type = s.type; text = s.text; pos = pos },
      record { rest = drop s.width (ch ∷ more); pos = pos + s.width },
    )
    | none ↦
        let (text, after) = read_quoted ch [] more (pos + 1) in
        let (word, behind) = read_word [] (ch ∷ more) pos in
        if is_quote ch
        then (record { type = string; text = text; pos = pos }, after)
        else (record { type = word_type word; text = word; pos = pos }, behind)
  ]

  unfoldable pub next : Lexer → Token × Lexer
  unfolding skip_ws next_from symbol_at read_quoted read_word word_type mem_char
  next l = let s = skip_ws l.rest l.pos in next_from s.rest s.pos
