-- ===== src/Remediate/Sysctl/Texts.antt =====
-- The lines of a file of settings, for `Merge` of internal/remediate/sysctl.go, and their text.
use plumbline.Go.Strings.{cons_first, split, join}
use plumbline.Base.Maps.{Map}
use plumbline.Remediate.Sysctl.{
  key_of, drop_empty_end, split_lines, setting, set_key, value_of, set_keys, join_lines,
}
use mathlib.Core.List.{append_assoc}
use plumbline.Base.{
  Str, codes, is_empty, str_eq, ℕ, ◌≡◌, refl, ap, ◌∙◌, inl, inr, Bool, true, false, List, [], ◌∷◌,
  ◌++◌, ◌==◌, if◌then◌else◌, Bool-cases, if_holds, All,
}

-- No line has a line end in it.
abbrev pub Line : Str → Type 0
Line = All (λ c. (c == b'\n') ≡ false)

set_key-Line :
    (key value : Str) (written : Bool) (lines : List Str)
    → Line (setting key value)
    → All Line lines
    → All Line (set_key key value written lines)
unfolding set_key
set_key-Line key value true [] s h = tt
set_key-Line key value false [] s h = (s, tt)
set_key-Line key value true (l ∷ ls) s h = elim (Bool-cases (str_eq (key_of l) key)) [
  | inl e ↦ rw (e, set_key) (set_key-Line key value true ls s h.1)
  | inr e ↦ rw (e, set_key) (h.0, set_key-Line key value true ls s h.1)
]
set_key-Line key value false (l ∷ ls) s h = elim (Bool-cases (str_eq (key_of l) key)) [
  | inl e ↦ rw (e, set_key) (s, set_key-Line key value true ls s h.1)
  | inr e ↦ rw (e, set_key) (h.0, set_key-Line key value false ls s h.1)
]

pub set_keys-Line :
    (pairs : Map Str) (ks lines : List Str)
    → All (λ k. Line (setting k (value_of pairs k))) ks
    → All Line lines
    → All Line (set_keys pairs ks lines)
unfolding set_keys
set_keys-Line pairs [] lines s h = h
set_keys-Line pairs (k ∷ ks) lines s h =
    set_keys-Line pairs ks (set_key k (value_of pairs k) false lines) s.1
      (set_key-Line k (value_of pairs k) false lines s.0 h)

-- Splitting.
cons_first-Line :
    (c : ℕ) (ls : List Str) → (c == b'\n') ≡ false → All Line ls → All Line (cons_first c ls)
unfolding cons_first
cons_first-Line c [] e h = ((e, tt), tt)
cons_first-Line c (l ∷ ls) e h = ((e, h.0), h.1)

split-Line : (s : Str) → All Line (split b'\n' s)
unfolding split
split-Line [] = (tt, tt)
split-Line (c ∷ cs) = elim (Bool-cases (c == b'\n')) [
  | inl e ↦ rw e (tt, split-Line cs)
  | inr e ↦ rw e (cons_first-Line c (split b'\n' cs) e (split-Line cs))
]

drop_empty_end-Line : (ls : List Str) → All Line ls → All Line (drop_empty_end ls)
unfolding drop_empty_end
drop_empty_end-Line [] h = tt
drop_empty_end-Line ([] ∷ []) h = tt
drop_empty_end-Line ((c ∷ cs) ∷ []) h = h
drop_empty_end-Line (l ∷ m ∷ ls) h = (h.0, drop_empty_end-Line (m ∷ ls) h.1)

pub split_lines-Line : (s : Str) → All Line (split_lines s)
unfolding split_lines
split_lines-Line s =
    if_holds (All Line) (is_empty s) tt (drop_empty_end-Line (split b'\n' s) (split-Line s))

split_line : (l r : Str) → Line l → split b'\n' (l ++ (b'\n' ∷ r)) ≡ l ∷ split b'\n' r
unfolding split cons_first
split_line [] r h = refl
split_line (c ∷ cs) r h = rw h.0 (ap (cons_first c) (split_line cs r h.1))

cons_first_cons : (c : ℕ) (ls : List Str) → (x : Str) × (xs : List Str) × (cons_first c ls ≡ x ∷ xs)
unfolding cons_first
cons_first_cons c [] = (c ∷ [], [], refl)
cons_first_cons c (l ∷ ls) = (c ∷ l, ls, refl)

split_cons : (s : Str) → (x : Str) × (xs : List Str) × (split b'\n' s ≡ x ∷ xs)
unfolding split
split_cons [] = ([], [], refl)
split_cons (c ∷ cs) = elim (Bool-cases (c == b'\n')) [
  | inl e ↦ rw e ([], split b'\n' cs, refl)
  | inr e ↦ rw e (cons_first_cons c (split b'\n' cs))
]

drop_empty_end-cons :
    (l s : Str) → drop_empty_end (l ∷ split b'\n' s) ≡ l ∷ drop_empty_end (split b'\n' s)
unfolding drop_empty_end
drop_empty_end-cons l s = let (x, xs, e) = split_cons s in rw e refl

split-join_lines :
    (l : Str) (ls : List Str)
    → All Line (l ∷ ls)
    → drop_empty_end (split b'\n' (join_lines (l ∷ ls))) ≡ l ∷ ls
unfolding join_lines join drop_empty_end split
split-join_lines l [] h = ap drop_empty_end (split_line l [] h.0)
split-join_lines l (m ∷ ls) h =
    let text = join_lines (m ∷ ls) in
    ap (λ s. drop_empty_end (split b'\n' s)) (append_assoc l _ (b'\n' ∷ []))
    ∙ ap drop_empty_end (split_line l text h.0)
    ∙ drop_empty_end-cons l text
    ∙ ap (λ r. l ∷ r) (split-join_lines m ls h.1)

is_empty-append : (s : Str) (c : ℕ) → is_empty (s ++ c ∷ []) ≡ false
is_empty-append [] c = refl
is_empty-append (d ∷ s) c = refl

pub split_lines-join_lines : (ls : List Str) → All Line ls → split_lines (join_lines ls) ≡ ls
unfolding split_lines join_lines
split_lines-join_lines [] h = refl
split_lines-join_lines (l ∷ ls) h =
    ap (λ b. if b then [] else drop_empty_end (split b'\n' (join_lines (l ∷ ls))))
      (is_empty-append (join (codes "\n") (l ∷ ls)) b'\n')
    ∙ split-join_lines l ls h
