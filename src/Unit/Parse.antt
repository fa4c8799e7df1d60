-- ===== src/Unit/Parse.antt =====
-- `parse` of internal/collect/unit/unit.go. The loop over the lines is recursion on the lines that are
-- left; a line that continues is remembered until its last continuation has been read.
pub mod Laws
use mathlib.Core.List.{reverse}
use plumbline.Unit.{Request, Directive}
use plumbline.Go.Space.{trim_space}
use plumbline.Go.Strings.{trim_right, split, cut, has_suffix, drop_last}
use plumbline.Base.Text.{has_prefix}
use plumbline.Base.Maps.{contains}
use plumbline.Base.{
  Str, codes, is_empty, str_eq, ℕ, ◌+◌, ◌%◌, Bool, true, false, not, ◌&&◌, ◌||◌, Option, none, some,
  List, [], ◌∷◌, ◌++◌, ◌==◌, if◌then◌else◌,
}

abbrev is_cr : ℕ → Bool
is_cr c = c == b'\r'

abbrev is_blank : ℕ → Bool
is_blank c = c == b' ' || c == b'\t'

-- `strings.TrimRight(line, "\r")`
abbrev pub chomp : Str → Str
chomp = trim_right is_cr

count_backslashes : Str → ℕ
count_backslashes [] = 0
count_backslashes (c ∷ cs) = if c == b'\\' then 1 + count_backslashes cs else 0

-- `continues`: the number of trailing backslashes is odd.
unfoldable pub continues : Str → Bool
unfolding count_backslashes trim_right
continues s = count_backslashes (reverse (trim_right (λ c. is_blank c || is_cr c) s)) % 2 == 1

-- A continued line and the line behind it, as one.
unfoldable pub join_continued : Str → Str → Str
join_continued raw next =
    trim_right is_blank (drop_last (trim_right is_blank raw)) ++ (b' ' ∷ trim_space (chomp next))

unfoldable pub is_comment : Str → Bool
unfolding has_prefix
is_comment trimmed =
    is_empty trimmed || (has_prefix trimmed (codes "#") || has_prefix trimmed (codes ";"))

-- What a logical line does to the section that is open.
is_header : Str → Bool
is_header stmt = has_prefix stmt (codes "[") && has_suffix stmt (codes "]")

drop_first : Str → Str
drop_first [] = []
drop_first (c ∷ cs) = cs

-- `stmt[1 : len(stmt)-1]`
next_section : Str → Str → Str
unfolding is_header drop_first
next_section stmt section = if is_header stmt then drop_last (drop_first stmt) else section

-- The assignment that a logical line makes, if the request keeps it.
kept_assignment : Request → Str → ℕ → Option (Str × Str) → Option Directive
kept_assignment req origin first none = none
kept_assignment req origin first (some (key, value)) =
    if contains req.directives (trim_space key)
    then some
        (record { name = trim_space key; value = trim_space value; origin = origin; line = first })
    else none

assignment : Request → Str → Str → ℕ → Str → Option Directive
unfolding is_header kept_assignment
assignment req origin section first stmt =
    if is_header stmt
    then none
    else if not (str_eq section req.section)
    then none
    else kept_assignment req origin first (cut b'=' stmt)

append_kept : Option Directive → List Directive → List Directive
append_kept none ds = ds
append_kept (some d) ds = d ∷ ds

-- What the lines read so far leave open.
pub data Pending : Type 0 where
  fresh in_comment : Pending
  continued : ℕ → Str → Pending

-- The loop: `at` is the number of the line at the front.
parse_lines : Request → Str → Str → ℕ → Pending → List Str → List Directive
unfolding append_kept
parse_lines req origin section at fresh [] = []
parse_lines req origin section at in_comment [] = []
parse_lines req origin section at (continued first raw) [] =
    append_kept (assignment req origin section first (trim_space raw)) []
parse_lines req origin section at fresh (l ∷ ls) =
    let raw = chomp l in
    elim (is_comment (trim_space raw)) [
      | true ↦ elim (continues raw) [
        | true ↦ parse_lines req origin section (at + 1) in_comment ls
        | false ↦ parse_lines req origin section (at + 1) fresh ls
      ]
      | false ↦ elim (continues raw) [
        | true ↦ parse_lines req origin section (at + 1) (continued at raw) ls
        | false ↦
            append_kept (assignment req origin section at (trim_space raw))
              (parse_lines req origin (next_section (trim_space raw) section) (at + 1) fresh ls)
      ]
    ]
parse_lines req origin section at in_comment (l ∷ ls) = elim (continues (chomp l)) [
  | true ↦ parse_lines req origin section (at + 1) in_comment ls
  | false ↦ parse_lines req origin section (at + 1) fresh ls
]
parse_lines req origin section at (continued first raw) (l ∷ ls) =
    let joined = join_continued raw l in
    elim (continues joined) [
      | true ↦ parse_lines req origin section (at + 1) (continued first joined) ls
      | false ↦
          append_kept (assignment req origin section first (trim_space joined))
            (parse_lines req origin (next_section (trim_space joined) section) (at + 1) fresh ls)
    ]

-- `parse`
unfoldable pub parse : Str → Str → Request → List Directive
unfolding split parse_lines assignment next_section
parse data_bytes origin req = parse_lines req origin [] 1 fresh (split b'\n' data_bytes)
