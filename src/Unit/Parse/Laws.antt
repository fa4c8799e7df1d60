-- ===== src/Unit/Parse/Laws.antt =====
-- What `parse` of internal/collect/unit/unit.go keeps, and where it says that it stood.
use plumbline.Unit.{Request, Directive}
use plumbline.Unit.Parse.{
  parse, parse_lines, Pending, fresh, in_comment, continued, append_kept, assignment,
  kept_assignment, is_comment, continues, chomp, join_continued, next_section,
}
use plumbline.Go.Space.{trim_space}
use plumbline.Go.Strings.{split, cut}
use plumbline.Base.Maps.{contains}
use plumbline.Base.{
  Str, ℕ, ◌+◌, ◌≤◌, ◌<◌, ◌≡◌, refl, inl, inr, true, Option, none, some, List, [], ◌∷◌, arith,
  Bool-cases, Option-cases, length, All,
}

-- Lines that rise from one on, all below another, of directives that were asked for, in one file.
pub Kept : Request → Str → ℕ → ℕ → List Directive → Type 0
Kept req origin lo hi [] = Unit
Kept req origin lo hi (d ∷ ds) =
    (contains req.directives d.name ≡ true)
    × (d.origin ≡ origin)
    × (lo ≤ d.line)
    × (d.line < hi)
    × Kept req origin (d.line + 1) hi ds

-- A bound may be taken lower.
Kept-weaken :
    (req : Request) (origin : Str) (lo lo' hi : ℕ) (ds : List Directive)
    → lo ≤ lo'
    → Kept req origin lo' hi ds
    → Kept req origin lo hi ds
unfolding Kept
Kept-weaken req origin lo lo' hi [] h k = tt
Kept-weaken req origin lo lo' hi (d ∷ ds) h (w, o, l, u, k) = (w, o, omega arith, u, k)

kept_assignment-some :
    (req : Request) (origin : Str) (first : ℕ) (kv : Option (Str × Str)) (d : Directive)
    → kept_assignment req origin first kv ≡ some d
    → (contains req.directives d.name ≡ true) × (d.origin ≡ origin) × (d.line ≡ first)
unfolding kept_assignment
kept_assignment-some req origin first none d h = absurd (ground arith)
kept_assignment-some req origin first (some (k, v)) d h = ground arith

assignment-some :
    (req : Request) (origin section : Str) (first : ℕ) (stmt : Str) (d : Directive)
    → assignment req origin section first stmt ≡ some d
    → (contains req.directives d.name ≡ true) × (d.origin ≡ origin) × (d.line ≡ first)
unfolding assignment
assignment-some req origin section first stmt d h =
    ground (arith, kept_assignment-some req origin first (cut b'=' stmt) d)

append_kept-Kept :
    (req : Request) (origin section : Str) (first : ℕ) (stmt : Str) (lo hi : ℕ)
    (ds : List Directive)
    → first < hi
    → first < lo
    → Kept req origin lo hi ds
    → Kept req origin first hi (append_kept (assignment req origin section first stmt) ds)
unfolding Kept append_kept
append_kept-Kept req origin section first stmt lo hi ds h k rest =
    elim (Option-cases (assignment req origin section first stmt)) [
      | inl e ↦ rw (e, append_kept) (Kept-weaken req origin first lo hi ds (omega arith) rest)
      | inr (d, e) ↦
          let (w, o, l) = assignment-some req origin section first stmt d e in
          rw (e, append_kept)
            (
              w,
              o,
              omega arith,
              omega arith,
              Kept-weaken req origin (d.line + 1) lo hi ds (omega arith) rest,
            )
    ]

-- The line from which the open directive counts, or that of the line at the front.
start_of : Pending → ℕ → ℕ
start_of (continued first raw) at = first
start_of _ at = at

-- A directive that is open began on an earlier line.
Began : Pending → ℕ → Type 0
Began (continued first raw) at = first < at
Began _ at = Unit

parse_lines-Kept :
    (req : Request) (origin section : Str) (at : ℕ) (p : Pending) (ls : List Str) (hi : ℕ)
    → at + length ls ≡ hi
    → Began p at
    → Kept req origin (start_of p at) hi (parse_lines req origin section at p ls)
unfolding parse_lines start_of Began Kept
parse_lines-Kept req origin section at fresh [] hi e b = tt
parse_lines-Kept req origin section at in_comment [] hi e b = tt
parse_lines-Kept req origin section at (continued first raw) [] hi e b =
    append_kept-Kept req origin section first (trim_space raw) (first + 1) hi [] (omega arith)
      (omega arith) tt
parse_lines-Kept req origin section at fresh (l ∷ ls) hi e b =
    let raw = chomp l in
    let later : at + 1 + length ls ≡ hi = omega arith in
    elim (Bool-cases (is_comment (trim_space raw))) [
      | inl c ↦ elim (Bool-cases (continues raw)) [
        | inl t ↦
            rw (c, t, parse_lines)
              (Kept-weaken req origin at (at + 1) hi _ (omega arith)
                (parse_lines-Kept req origin section (at + 1) in_comment ls hi later tt))
        | inr t ↦
            rw (c, t, parse_lines)
              (Kept-weaken req origin at (at + 1) hi _ (omega arith)
                (parse_lines-Kept req origin section (at + 1) fresh ls hi later tt))
      ]
      | inr c ↦ elim (Bool-cases (continues raw)) [
        | inl t ↦
            rw (c, t, parse_lines)
              (parse_lines-Kept req origin section (at + 1) (continued at raw) ls hi later
                (omega arith))
        | inr t ↦
            rw (c, t, parse_lines)
              (append_kept-Kept req origin section at (trim_space raw) (at + 1) hi _ (omega arith)
                (omega arith)
                (parse_lines-Kept req origin (next_section (trim_space raw) section) (at + 1) fresh
                  ls hi later tt))
      ]
    ]
parse_lines-Kept req origin section at in_comment (l ∷ ls) hi e b =
    let later : at + 1 + length ls ≡ hi = omega arith in
    elim (Bool-cases (continues (chomp l))) [
      | inl t ↦
          rw (t, parse_lines)
            (Kept-weaken req origin at (at + 1) hi _ (omega arith)
              (parse_lines-Kept req origin section (at + 1) in_comment ls hi later tt))
      | inr t ↦
          rw (t, parse_lines)
            (Kept-weaken req origin at (at + 1) hi _ (omega arith)
              (parse_lines-Kept req origin section (at + 1) fresh ls hi later tt))
    ]
parse_lines-Kept req origin section at (continued first raw) (l ∷ ls) hi e b =
    let joined = join_continued raw l in
    let later : at + 1 + length ls ≡ hi = omega arith in
    elim (Bool-cases (continues joined)) [
      | inl t ↦
          rw (t, parse_lines)
            (parse_lines-Kept req origin section (at + 1) (continued first joined) ls hi later
              (omega arith))
      | inr t ↦
          rw (t, parse_lines)
            (append_kept-Kept req origin section first (trim_space joined) (at + 1) hi _
              (omega arith) (omega arith)
              (parse_lines-Kept req origin (next_section (trim_space joined) section) (at + 1) fresh
                ls hi later tt))
    ]

-- `parse` keeps no directive that was not asked for. Each one that it keeps says the file, and a line of
-- it: the lines are numbered from 1 and rise from directive to directive.
pub parse-Kept :
    (bytes origin : Str) (req : Request)
    → Kept req origin 1 (1 + length (split b'\n' bytes)) (parse bytes origin req)
unfolding parse start_of Began
parse-Kept bytes origin req = parse_lines-Kept req origin [] 1 fresh (split b'\n' bytes) _ refl tt

-- The directive is one that was asked for.
abbrev pub Wanted : Request → Directive → Type 0
Wanted req d = contains req.directives d.name ≡ true

Kept-Wanted :
    (req : Request) (origin : Str) (lo hi : ℕ) (ds : List Directive)
    → Kept req origin lo hi ds
    → All (Wanted req) ds
unfolding Kept
Kept-Wanted req origin lo hi [] k = tt
Kept-Wanted req origin lo hi (d ∷ ds) (w, o, l, u, k) =
    (w, Kept-Wanted req origin (d.line + 1) hi ds k)

pub parse-Wanted : (bytes origin : Str) (req : Request) → All (Wanted req) (parse bytes origin req)
parse-Wanted bytes origin req = Kept-Wanted req origin 1 _ _ (parse-Kept bytes origin req)
