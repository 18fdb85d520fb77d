-- ===== src/Aggregate/Runs.antt =====
-- src/aggregate/ConnectionAggregator.cpp, class RowUpdateRuns: the rows that were updated, sent as
-- runs of neighbours. `m_first` below 0 is `none`; what `send` is called with is returned.
pub mod Cover
use qiftop.Common.{
  ℕ, ◌+◌, Bool, List, [], ◌∷◌, ◌++◌, Option, none, some, if◌then◌else◌, ◌==◌, nat_eq,
}

abbrev pub Run : Type 0
Run = ℕ × ℕ

-- The object after `add`, and what it sent.
pub add : Option Run → ℕ → Option Run × List Run
add none row = (some (row, row), [])
add (some (first, last)) row =
    if row == last + 1 then (some (first, row), []) else (some (row, row), (first, last) ∷ [])

pub flush : Option Run → List Run
flush none = []
flush (some run) = run ∷ []

-- A loop that adds rows, and the `flush` behind it.
pub add_all : Option Run → List ℕ → List Run
unfolding add flush
add_all runs [] = flush runs
add_all runs (row ∷ rows) = let (runs', sent) = add runs row in sent ++ add_all runs' rows

unfoldable pub runs_of : List ℕ → List Run
unfolding add_all
runs_of rows = add_all none rows
