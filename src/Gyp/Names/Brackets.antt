-- ===== src/Gyp/Names/Brackets.antt =====
-- `FindEnclosingBracketGroup` of src/tools/pylib_dbg/input.py.
use dcfpe.Common.{
  ℕ, ◌+◌, Bool, true, false, ◌||◌, Option, none, some, List, [], ◌∷◌, ◌==◌, if◌then◌else◌, Text,
}

-- LBRACKETS
unfoldable pub is_open : ℕ → Bool
is_open c = c == b'{' || (c == b'[' || c == b'(')

-- BRACKETS: the opening bracket of a closing one
unfoldable pub opening : ℕ → Option ℕ
opening c =
    if c == b'}'
    then some b'{'
    else if c == b']'
    then some b'['
    else if c == b')'
    then some b'('
    else none

abbrev pub start_or : ℕ → Option ℕ → Option ℕ
start_or index none = some index
start_or index (some start) = some start

-- The loop: `index` counts the characters read, `stack` holds the open brackets, the last one
-- first, and `start` is none for -1. `none` stands for the result (-1, -1).
unfoldable pub find_from : Option ℕ → ℕ → List ℕ → Text → Option (Option ℕ × ℕ)
find_from start index stack [] = none
find_from start index stack (c ∷ s) = elim (is_open c) [
  | true ↦ find_from (start_or index start) (index + 1) (c ∷ stack) s
  | false ↦ elim (opening c) [
    | none ↦ find_from start (index + 1) stack s
    | some bracket ↦ elim stack [
      | [] ↦ none
      | top ∷ below ↦
          let rest = find_from start (index + 1) below s in
          if top == bracket
          then (elim below [ [] ↦ some (start, index + 1) | _ ∷ _ ↦ rest ])
          else none
    ]
  ]
]

unfoldable pub find_enclosing_bracket_group : Text → Option (Option ℕ × ℕ)
unfolding find_from is_open opening
find_enclosing_bracket_group s = find_from none 0 [] s
