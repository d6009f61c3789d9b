-- ===== src/Documents/Drawing.antt =====
-- inh_evil_reduce_c11_apps.cc: how long a drawing is.
use cpp_tricks.Common.{ℕ, ◌+◌, ◌≤◌, arith}
use cpp_tricks.Documents.{Document, streamed, my_class, nested, nothing, item}

module _ {V : Type 0} where
  -- The lines that the items of a document draw, and one.
  unfoldable pub lines_of : Document V → ℕ
  lines_of nothing = 1
  lines_of (item (streamed v) d) = 1 + lines_of d
  lines_of (item my_class d) = 1 + lines_of d
  lines_of (item (nested inner) d) = 1 + (lines_of inner + lines_of d)

  pub lines_of-positive : (d : Document V) → 1 ≤ lines_of d
  unfolding lines_of
  lines_of-positive nothing = omega arith
  lines_of-positive (item (streamed v) d) = omega arith
  lines_of-positive (item my_class d) = omega arith
  lines_of-positive (item (nested inner) d) = omega arith
