-- ===== src/Filter/Lexer/Progress.antt =====
-- What a token takes of the input, in the Lexer of src/util/ConnectionFilter.cpp.
use qiftop.Common.{
  ℕ, ◌+◌, ◌≤◌, ◌≡◌, inl, inr, ◌||◌, [], ◌∷◌, ◌++◌, some, arith, nat_eq, list_eq, length,
  length-drop, Bool-cases, Option-cases,
}
use qiftop.Flow.Types.{Text}
use qiftop.Filter.Qt.{Qt, IsQt}
use qiftop.Filter.Lexer.{
  TokType, and, or, Lexer, specials, mem_char, Symbol, is_quote, symbol_at, read_quoted, skip_ws,
  read_word, word_type, next_from, next,
}

-- 1 for the operators of the language that join expressions.
abbrev pub joins : TokType → ℕ
joins and = 1
joins or = 1
joins _ = 0

pub joins-le : (t : TokType) → joins t ≤ 1
joins-le t = ground arith

-- A symbol is at least as wide as it must be for progress.
symbol-joins :
    (ch : ℕ) (more : Text) {s : Symbol} → symbol_at ch more ≡ some s → joins s.type ≤ s.width
unfolding symbol_at
symbol-joins ch more e = ground arith

read_quoted-le :
    (quote : ℕ) (s t : Text) (pos : ℕ) → length (read_quoted quote s t pos).1.rest ≤ length t
unfolding read_quoted
read_quoted-le quote s [] pos = omega arith
read_quoted-le quote s (c ∷ []) pos = ground arith
read_quoted-le quote s (c ∷ d ∷ more) pos = ground (
  arith,
  read_quoted-le quote (s ++ d ∷ []) more (pos + 2),
  read_quoted-le quote (s ++ c ∷ []) (d ∷ more) (pos + 1),
)

module _ {Num Rx : Type 0} {q : Qt Num Rx} (v : IsQt q) where
  skip_ws-le : (t : Text) (pos : ℕ) → length (skip_ws q t pos).rest ≤ length t
  unfolding skip_ws
  skip_ws-le [] pos = omega arith
  skip_ws-le (c ∷ more) pos = ground (arith, skip_ws-le more (pos + 1))

  read_word-le : (word t : Text) (pos : ℕ) → length (read_word q word t pos).1.rest ≤ length t
  unfolding read_word
  read_word-le word [] pos = omega arith
  read_word-le word (c ∷ more) pos = ground (arith, read_word-le (word ++ c ∷ []) more (pos + 1))

  -- A word that ends where it began is empty, and no keyword.
  read_word-joins :
      (c : ℕ) (more : Text) (pos : ℕ)
      → joins (word_type q (read_word q [] (c ∷ more) pos).0)
          + length (read_word q [] (c ∷ more) pos).1.rest
        ≤ length (c ∷ more)
  unfolding read_word word_type
  read_word-joins c more pos = elim (Bool-cases (q.is_space c || mem_char c specials)) [
    | inl stops ↦ rw (stops, v.lower_empty) (omega arith)
    | inr goes ↦
        let le = read_word-le (c ∷ []) more (pos + 1) in
        rw goes (omega (arith, le, joins-le (word_type q (read_word q (c ∷ []) more (pos + 1)).0)))
  ]

  next_from-le :
      (t : Text) (pos : ℕ)
      → joins (next_from q t pos).0.type + length (next_from q t pos).1.rest ≤ length t
  unfolding next_from
  next_from-le [] pos = omega arith
  next_from-le (ch ∷ more) pos = elim (Option-cases (symbol_at ch more)) [
    | inl other ↦
        rw (other, next_from)
          (elim (Bool-cases (is_quote q ch)) [
            | inl quoted ↦ rw quoted (omega (arith, read_quoted-le ch [] more (pos + 1)))
            | inr bare ↦ rw bare (read_word-joins ch more pos)
          ])
    | inr (s, e) ↦
        rw (e, next_from)
          (omega (arith, symbol-joins ch more e, joins-le s.type, length-drop s.width (ch ∷ more)))
  ]

  -- Reading a token never lengthens the input, and shortens it if the token is `and` or `or`,
  -- given that lower-casing leaves the empty text empty.
  pub next-le : (l : Lexer) → joins (next q l).0.type + length (next q l).1.rest ≤ length l.rest
  unfolding next
  next-le l =
      let s = skip_ws q l.rest l.pos in
      omega (arith, skip_ws-le l.rest l.pos, next_from-le s.rest s.pos)
