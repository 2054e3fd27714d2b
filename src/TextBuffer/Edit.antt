-- ===== src/TextBuffer/Edit.antt =====
-- What an action of ui/text_buffer.c and a typed character do to a document.
use mathlib.Core.List.{reverse}
use retrodesk.Prelude.{ℕ, List, [], ◌∷◌, ◌++◌}
use retrodesk.Utf8.Columns.{widths, fitting}
use retrodesk.TextInput.Line.{Line, before}
use retrodesk.TextBuffer.Dispatch.{
  Action, newlines, backspaces, deletes, kills, homes, ends, lefts, rights, ups, downs,
}
use retrodesk.TextBuffer.Doc.{Doc}

abbrev pub at_start : List ℕ → Line
at_start row = record { left = []; right = row }

abbrev pub at_end : List ℕ → Line
at_end row = record { left = reverse row; right = [] }

abbrev pub row_of : Line → List ℕ
row_of l = reverse l.left ++ l.right

-- The row joined to the one above it, and to the one below it.
abbrev pub join_above : Doc → Doc
join_above d = elim d.above [
  | [] ↦ d
  | r ∷ rs ↦ record d { above = rs; line = record { left = reverse r; right = d.line.right } }
]

abbrev pub join_below : Doc → Doc
join_below d = elim d.below [
  | [] ↦ d
  | r ∷ rs ↦ record d { line = record { left = d.line.left; right = r }; below = rs }
]

abbrev pub to_end_above : Doc → Doc
to_end_above d = elim d.above [
  | [] ↦ d
  | r ∷ rs ↦ record { above = rs; line = at_end r; below = d.line.right ∷ d.below }
]

abbrev pub to_start_below : Doc → Doc
to_start_below d = elim d.below [
  | [] ↦ d
  | r ∷ rs ↦ record { above = reverse d.line.left ∷ d.above; line = at_start r; below = rs }
]

-- A row with the cursor behind the characters that fit into `n` columns.
abbrev pub fit : ℕ → List ℕ → Line
fit n row = record { left = reverse (fitting n row).0; right = (fitting n row).1 }

abbrev pub columns_before : Line → ℕ
columns_before l = widths (before l)

abbrev pub edit : Action → Doc → Doc
edit newlines d = record d { above = reverse d.line.left ∷ d.above; line = at_start d.line.right }
edit backspaces d = elim d.line.left [
  | [] ↦ join_above d
  | x ∷ xs ↦ record d { line = record { left = xs; right = d.line.right } }
]
edit deletes d = elim d.line.right [
  | [] ↦ join_below d
  | x ∷ xs ↦ record d { line = record { left = d.line.left; right = xs } }
]
edit lefts d = elim d.line.left [
  | [] ↦ to_end_above d
  | x ∷ xs ↦ record d { line = record { left = xs; right = x ∷ d.line.right } }
]
edit rights d = elim d.line.right [
  | [] ↦ to_start_below d
  | x ∷ xs ↦ record d { line = record { left = x ∷ d.line.left; right = xs } }
]
edit kills d = record d { line = record { left = d.line.left; right = [] } }
edit homes d = record d { line = at_start (row_of d.line) }
edit ends d = record d { line = record { left = reverse d.line.right ++ d.line.left; right = [] } }
edit ups d = elim d.above [
  | [] ↦ d
  | r ∷ rs ↦ record {
    above = rs;
    line = fit (columns_before d.line) r;
    below = row_of d.line ∷ d.below;
  }
]
edit downs d = elim d.below [
  | [] ↦ d
  | r ∷ rs ↦ record {
    above = row_of d.line ∷ d.above;
    line = fit (columns_before d.line) r;
    below = rs;
  }
]

-- A character typed at the cursor.
abbrev pub insert : ℕ → Doc → Doc
insert cp d = record d { line = record { left = cp ∷ d.line.left; right = d.line.right } }
