-- ===== src/Path/Tests.antt =====
-- Runs of the path functions, and the theorems on them at a path.
use unifat.Prelude.{ℕ, ◌≡◌, refl, arith, true, false, some, none, List, [], ◌∷◌}
use unifat.Path.{
  new, next, next_back, collect, components, normalize, parent, file_name, push, pop,
  is_strictly_under, split_head, split_tail, trim_start, trim_end, break_sep, rbreak_sep, classify,
  str_eq, has_prefix, ends_with_separator, resolve, rendered, popped, joined_with,
}
use unifat.Path.Rendering.{IsNormal, normalize-IsNormal}
use unifat.Path.Ending.{components-collect}

-- `\a\.\b\..\c`
abbrev dotted : List ℕ
dotted = 92 ∷ 97 ∷ 92 ∷ 46 ∷ 92 ∷ 98 ∷ 92 ∷ 46 ∷ 46 ∷ 92 ∷ 99 ∷ []

-- `\a\c`
abbrev plain : List ℕ
plain = 92 ∷ 97 ∷ 92 ∷ 99 ∷ []

program : Unit {0}
unfolding new next next_back collect components normalize parent file_name push pop
    is_strictly_under split_head split_tail trim_start trim_end break_sep rbreak_sep classify str_eq
    has_prefix ends_with_separator resolve rendered popped joined_with
program = tt

dots_collapsed : normalize dotted ≡ plain
unfolding program
dots_collapsed = refl

empty_is_root : normalize [] ≡ 92 ∷ []
unfolding program
empty_is_root = refl

last_name : file_name (97 ∷ 47 ∷ 98 ∷ 47 ∷ []) ≡ some (98 ∷ [])
unfolding program
last_name = refl

one_up : pop plain ≡ (92 ∷ 97 ∷ [], true)
unfolding program
one_up = refl

root_has_none : parent (92 ∷ []) ≡ none
unfolding program
root_has_none = refl

appended : push (92 ∷ 97 ∷ []) (99 ∷ []) ≡ plain
unfolding program
appended = refl

below : is_strictly_under plain (92 ∷ 97 ∷ []) ≡ true
unfolding program
below = refl

not_below : is_strictly_under (92 ∷ 97 ∷ 100 ∷ []) (92 ∷ 97 ∷ []) ≡ false
unfolding program
not_below = refl

normalize-IsNormal_example :
    IsNormal (normalize dotted) × (normalize (normalize dotted) ≡ normalize dotted)
normalize-IsNormal_example = normalize-IsNormal dotted

components-collect_example : collect 20 (new dotted) ≡ components dotted
components-collect_example = components-collect dotted 20 (omega arith)
