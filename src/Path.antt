-- ===== src/Path.antt =====
-- src/path.rs: paths, as lists of the codes of their characters, their components and their normal form.
pub mod Normal
pub mod Rendering
pub mod Ending
mod Tests
use unifat.Prelude.{
  ℕ, zero, suc, ◌+◌, Bool, true, false, not, ◌&&◌, ◌||◌, if◌then◌else◌, ◌==◌, ltb, leb, List, [],
  ◌∷◌, ◌++◌, Option, none, some, length, drop, get_elem?,
}

-- `SEPARATOR`
abbrev pub separator : ℕ
separator = 92

abbrev pub is_sep : ℕ → Bool
is_sep c = (c == 92) || (c == 47)

-- Equality of strings.
unfoldable pub str_eq : List ℕ → List ℕ → Bool
str_eq [] [] = true
str_eq [] (d ∷ t) = false
str_eq (c ∷ s) [] = false
str_eq (c ∷ s) (d ∷ t) = (c == d) && str_eq s t

-- `s.starts_with(prefix)`
unfoldable pub has_prefix : List ℕ → List ℕ → Bool
has_prefix s [] = true
has_prefix [] (d ∷ t) = false
has_prefix (c ∷ s) (d ∷ t) = (c == d) && has_prefix s t

unfoldable pub ends_with_separator : List ℕ → Bool
ends_with_separator [] = false
ends_with_separator (c ∷ []) = c == 92
ends_with_separator (c ∷ d ∷ s) = ends_with_separator (d ∷ s)

-- Whether a string goes on with a separator.
abbrev pub separator_first : List ℕ → Bool
separator_first [] = false
separator_first (c ∷ s) = c == 92

unfoldable pub is_strictly_under : List ℕ → List ℕ → Bool
unfolding has_prefix ends_with_separator
is_strictly_under path prefix =
    ltb (length prefix) (length path)
    && (has_prefix path prefix
        && (ends_with_separator prefix || separator_first (drop (length prefix) path)))

-- `s.starts_with(is_sep)`
abbrev pub is_absolute : List ℕ → Bool
is_absolute [] = false
is_absolute (c ∷ s) = is_sep c

-- `s.trim_start_matches(is_sep)`
unfoldable pub trim_start : List ℕ → List ℕ
trim_start [] = []
trim_start (c ∷ s) = let rest = trim_start s in if is_sep c then rest else c ∷ s

-- `s.trim_end_matches(is_sep)`: a character and what is left after it.
abbrev pub kept_end : ℕ → List ℕ → List ℕ
kept_end c [] = if is_sep c then [] else c ∷ []
kept_end c (d ∷ s) = c ∷ d ∷ s

unfoldable pub trim_end : List ℕ → List ℕ
trim_end [] = []
trim_end (c ∷ s) = kept_end c (trim_end s)

-- The string up to its first separator, and from there on.
unfoldable pub break_sep : List ℕ → List ℕ × List ℕ
break_sep [] = ([], [])
break_sep (c ∷ s) =
    let (head, tail) = break_sep s in if is_sep c then ([], c ∷ s) else (c ∷ head, tail)

-- The string before its last separator, and from there on.
abbrev pub earlier : ℕ → List ℕ → Option (List ℕ × List ℕ) → Option (List ℕ × List ℕ)
earlier c s (some (rest, last)) = some (c ∷ rest, last)
earlier c s none = if is_sep c then some ([], c ∷ s) else none

unfoldable pub rbreak_sep : List ℕ → Option (List ℕ × List ℕ)
rbreak_sep [] = none
rbreak_sep (c ∷ s) = earlier c s (rbreak_sep s)

pub data WindowsComponent : Type 0 where
  root_dir cur_dir parent_dir : WindowsComponent
  normal : List ℕ → WindowsComponent

abbrev pub component_str : WindowsComponent → List ℕ
component_str root_dir = separator ∷ []
component_str cur_dir = 46 ∷ []
component_str parent_dir = 46 ∷ 46 ∷ []
component_str (normal s) = s

pub record Components : Type 0 where
  pub rest : List ℕ
  pub yielded_root : Bool
  pub had_root : Bool

unfoldable pub new : List ℕ → Components
unfolding trim_start
new s =
    let had_root = is_absolute s in
    record {
      rest = if had_root then trim_start s else s;
      yielded_root = false;
      had_root = had_root;
    }

unfoldable pub split_head : List ℕ → Option (List ℕ × List ℕ)
unfolding break_sep trim_start
split_head [] = none
split_head (c ∷ s) = let (head, tail) = break_sep (c ∷ s) in some (head, trim_start tail)

-- The last component of a string without separators at its end.
abbrev pub last_of : List ℕ → Option (List ℕ × List ℕ) → Option (List ℕ × List ℕ)
last_of s (some (rest, last)) = some (trim_start last, trim_end rest)
last_of s none = some (s, [])

abbrev pub tail_of : List ℕ → Option (List ℕ × List ℕ)
tail_of [] = none
tail_of (c ∷ s) = last_of (c ∷ s) (rbreak_sep (c ∷ s))

unfoldable pub split_tail : List ℕ → Option (List ℕ × List ℕ)
unfolding trim_end trim_start rbreak_sep
split_tail s = tail_of (trim_end s)

unfoldable pub classify : List ℕ → WindowsComponent
unfolding str_eq
classify seg =
    if str_eq seg (46 ∷ [])
    then cur_dir
    else if str_eq seg (46 ∷ 46 ∷ [])
    then parent_dir
    else normal seg

-- A component and the iterator after it.
abbrev pub yielded : Components → Option (List ℕ × List ℕ) → Option (WindowsComponent × Components)
yielded c none = none
yielded c (some (seg, rest)) = some (classify seg, record c { rest = rest })

unfoldable pub next : Components → Option (WindowsComponent × Components)
unfolding split_head classify
next c =
    if c.had_root && not c.yielded_root
    then some (root_dir, record c { yielded_root = true })
    else yielded c (split_head c.rest)

abbrev pub root_last :
    Components → Option (WindowsComponent × Components) → Option (WindowsComponent × Components)
root_last c (some x) = some x
root_last c none =
    if c.had_root && not c.yielded_root
    then some (root_dir, record c { yielded_root = true })
    else none

unfoldable pub next_back : Components → Option (WindowsComponent × Components)
unfolding split_tail classify
next_back c = root_last c (yielded c (split_tail c.rest))

-- The components that an iterator yields: a component a round.
unfoldable pub collect : ℕ → Components → List WindowsComponent
unfolding next
collect zero c = []
collect (suc n) c = elim (next c) [ none ↦ [] | some (x, c') ↦ x ∷ collect n c' ]

-- One round for the root, and one for each character that is left.
unfoldable pub components : List ℕ → List WindowsComponent
unfolding collect new
components s = collect (suc (length s)) (new s)

-- `out.pop()`
unfoldable pub popped : List (List ℕ) → List (List ℕ)
popped [] = []
popped (x ∷ []) = []
popped (x ∷ y ∷ out) = x ∷ popped (y ∷ out)

-- The loop of `normalize`.
unfoldable pub resolve : List WindowsComponent → Bool → List (List ℕ) → Bool × List (List ℕ)
unfolding popped
resolve [] has_root out = (has_root, out)
resolve (root_dir ∷ cs) has_root out = resolve cs true []
resolve (cur_dir ∷ cs) has_root out = resolve cs has_root out
resolve (parent_dir ∷ cs) has_root out = resolve cs has_root (popped out)
resolve (normal s ∷ cs) has_root out = resolve cs has_root (out ++ s ∷ [])

-- The segments with a separator between them.
unfoldable pub joined_with : List (List ℕ) → List ℕ
joined_with [] = []
joined_with (x ∷ []) = x
joined_with (x ∷ y ∷ out) = x ++ separator ∷ joined_with (y ∷ out)

abbrev pub or_root : List ℕ → List ℕ
or_root [] = separator ∷ []
or_root (c ∷ s) = c ∷ s

unfoldable pub rendered : Bool × List (List ℕ) → List ℕ
unfolding joined_with
rendered (has_root, out) =
    or_root (if has_root then separator ∷ joined_with out else joined_with out)

unfoldable pub normalize : List ℕ → List ℕ
unfolding components resolve rendered
normalize s = rendered (resolve (components s) false [])

abbrev pub file_name_of : Option (WindowsComponent × Components) → Option (List ℕ)
file_name_of (some (normal s, c)) = some s
file_name_of (some (root_dir, c)) = none
file_name_of (some (cur_dir, c)) = none
file_name_of (some (parent_dir, c)) = none
file_name_of none = none

unfoldable pub file_name : List ℕ → Option (List ℕ)
unfolding next_back new
file_name s = file_name_of (next_back (new s))

-- The path before the last separator, which is the root where that is the first character.
abbrev pub parent_of : Option (List ℕ × List ℕ) → Option (List ℕ)
parent_of none = none
parent_of (some ([], last)) = some (separator ∷ [])
parent_of (some (c ∷ rest, last)) = some (c ∷ rest)

abbrev pub parent_from : List ℕ → Option (List ℕ)
parent_from [] = none
parent_from (c ∷ s) = parent_of (rbreak_sep (c ∷ s))

unfoldable pub parent : List ℕ → Option (List ℕ)
unfolding trim_end rbreak_sep
parent s = parent_from (trim_end s)

abbrev pub ends_with_sep : List ℕ → Bool
ends_with_sep [] = false
ends_with_sep (c ∷ []) = is_sep c
ends_with_sep (c ∷ d ∷ s) = ends_with_sep (d ∷ s)

abbrev pub is_empty : List ℕ → Bool
is_empty [] = true
is_empty (c ∷ s) = false

-- `PathBuf::push`
unfoldable pub push : List ℕ → List ℕ → List ℕ
push path s =
    if is_empty s
    then path
    else if is_absolute s
    then s
    else if not (is_empty path) && not (ends_with_sep path)
    then path ++ separator ∷ s
    else path ++ s

abbrev pub popped_to : List ℕ → Option (List ℕ) → List ℕ × Bool
popped_to path (some p) = (p, true)
popped_to path none = (path, false)

-- `PathBuf::pop`: the path left, and whether there was a parent.
unfoldable pub pop : List ℕ → List ℕ × Bool
unfolding parent
pop path = popped_to path (parent path)
