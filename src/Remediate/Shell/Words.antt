-- ===== src/Remediate/Shell/Words.antt =====
-- How a POSIX shell reads the lines of `command` of internal/remediate/engine.go.
use plumbline.Go.Strings.{join}
use plumbline.Remediate.Shell.{is_safe, all_safe, escape_quotes, shell_quote, command_line}
use mathlib.Core.List.{append_assoc, append-nil}
use plumbline.Base.{
  any, Str, codes, ℕ, ◌≡◌, refl, sym, ap, ◌∙◌, inl, inr, Bool, true, false, ◌||◌, Option, none,
  some, List, [], ◌∷◌, ◌++◌, arith, ltb, ◌==◌, if◌then◌else◌, Bool-cases,
}

-- The characters that mean something to the shell outside of quotes (POSIX.1, XCU 2.2).
unfoldable pub is_special : ℕ → Bool
is_special c = ltb c 33 || any (λ d. d == c) (codes "|&;<>()$`\\\"'*?[]#~%{}!^")

pub data Kind : Type 0 where
  blank quote backslash special plain : Kind

unfoldable pub kind : ℕ → Kind
unfolding is_special any
kind c =
    if c == b' '
    then blank
    else if c == b'\''
    then quote
    else if c == b'\\'
    then backslash
    else if is_special c
    then special
    else plain

-- Where the reader is: between words, in a word, in single quotes, or behind a backslash.
pub data Reading : Type 0 where
  between : Reading
  in_word in_quotes escaped : Str → Reading

-- Where a character takes the reader, and the word that it ends.
step : Reading → ℕ → Option (Reading × Option Str)
step between c = elim (kind c) [
  | blank ↦ some (between, none)
  | quote ↦ some (in_quotes [], none)
  | backslash ↦ some (escaped [], none)
  | special ↦ none
  | plain ↦ some (in_word (c ∷ []), none)
]
step (in_word w) c = elim (kind c) [
  | blank ↦ some (between, some w)
  | quote ↦ some (in_quotes w, none)
  | backslash ↦ some (escaped w, none)
  | special ↦ none
  | plain ↦ some (in_word (w ++ c ∷ []), none)
]
step (in_quotes w) c =
    if c == b'\'' then some (in_word w, none) else some (in_quotes (w ++ c ∷ []), none)
step (escaped w) c = if c == b'\n' then none else some (in_word (w ++ c ∷ []), none)

-- What the reader has at the end of the line.
finish : Reading → Option (List Str)
finish between = some []
finish (in_word w) = some (w ∷ [])
finish (in_quotes w) = none
finish (escaped w) = none

with_word : Option Str → Option (List Str) → Option (List Str)
with_word w none = none
with_word none (some ws) = some ws
with_word (some w) (some ws) = some (w ∷ ws)

-- The words of a line that has nothing in it but words, each of ordinary characters, of characters
-- behind a backslash and of single quotes; there are none if the line has anything else.
unfoldable pub shell_words : Reading → Str → Option (List Str)
unfolding step finish with_word
shell_words r [] = finish r
shell_words r (c ∷ cs) = elim (step r c) [
  | none ↦ none
  | some (r', w) ↦ with_word w (shell_words r' cs)
]

kind-safe : (c : ℕ) → is_safe c ≡ true → kind c ≡ plain
unfolding is_safe kind is_special any
kind-safe c h = ground arith

with_word-none : (o : Option (List Str)) → with_word none o ≡ o
unfolding with_word
with_word-none none = refl
with_word-none (some ws) = refl

quote_is : (c : ℕ) → (c == b'\'') ≡ true → c ≡ b'\''
quote_is c e = ground arith

word_plain :
    (w : Str) (c : ℕ) (r : Str)
    → kind c ≡ plain
    → shell_words (in_word w) (c ∷ r) ≡ shell_words (in_word (w ++ c ∷ [])) r
unfolding shell_words step
word_plain w c r e = rw (e, shell_words, step) (with_word-none _)

between_plain :
    (c : ℕ) (r : Str)
    → kind c ≡ plain
    → shell_words between (c ∷ r) ≡ shell_words (in_word (c ∷ [])) r
unfolding shell_words step
between_plain c r e = rw (e, shell_words, step) (with_word-none _)

between_quote : (r : Str) → shell_words between (b'\'' ∷ r) ≡ shell_words (in_quotes []) r
unfolding shell_words step kind
between_quote r = with_word-none _

word_space :
    (w r : Str) → shell_words (in_word w) (b' ' ∷ r) ≡ with_word (some w) (shell_words between r)
unfolding shell_words step kind
word_space w r = refl

word_quote : (w r : Str) → shell_words (in_word w) (b'\'' ∷ r) ≡ shell_words (in_quotes w) r
unfolding shell_words step kind
word_quote w r = with_word-none _

word_backslash : (w r : Str) → shell_words (in_word w) (b'\\' ∷ r) ≡ shell_words (escaped w) r
unfolding shell_words step kind
word_backslash w r = with_word-none _

escaped_quote :
    (w r : Str) → shell_words (escaped w) (b'\'' ∷ r) ≡ shell_words (in_word (w ++ b'\'' ∷ [])) r
unfolding shell_words step
escaped_quote w r = with_word-none _

quotes_end : (w r : Str) → shell_words (in_quotes w) (b'\'' ∷ r) ≡ shell_words (in_word w) r
unfolding shell_words step
quotes_end w r = with_word-none _

quotes_other :
    (w : Str) (c : ℕ) (r : Str)
    → (c == b'\'') ≡ false
    → shell_words (in_quotes w) (c ∷ r) ≡ shell_words (in_quotes (w ++ c ∷ [])) r
unfolding shell_words step
quotes_other w c r e = rw (e, shell_words, step) (with_word-none _)

read-safe :
    (w s rest : Str)
    → all_safe s ≡ true
    → shell_words (in_word w) (s ++ rest) ≡ shell_words (in_word (w ++ s)) rest
unfolding all_safe
read-safe w [] rest h = ap (λ v. shell_words (in_word v) rest) (sym (append-nil w))
read-safe w (c ∷ cs) rest h =
    word_plain w c (cs ++ rest) (kind-safe c (ground arith))
    ∙ read-safe (w ++ c ∷ []) cs rest (ground arith)
    ∙ ap (λ v. shell_words (in_word v) rest) (append_assoc w (c ∷ []) cs)

read-escape_quotes :
    (w s rest : Str)
    → shell_words (in_quotes w) (escape_quotes s ++ (b'\'' ∷ rest))
      ≡ shell_words (in_word (w ++ s)) rest
unfolding escape_quotes
read-escape_quotes w [] rest =
    quotes_end w rest ∙ ap (λ v. shell_words (in_word v) rest) (sym (append-nil w))
read-escape_quotes w (c ∷ cs) rest =
    let tail = escape_quotes cs ++ (b'\'' ∷ rest) in
    let joined = ap (λ v. shell_words (in_word v) rest) (append_assoc w (c ∷ []) cs) in
    elim (Bool-cases (c == b'\'')) [
      | inl e ↦
          rw (e, escape_quotes)
            (quotes_end w (b'\\' ∷ b'\'' ∷ b'\'' ∷ tail)
              ∙ word_backslash w (b'\'' ∷ b'\'' ∷ tail)
              ∙ escaped_quote w (b'\'' ∷ tail)
              ∙ word_quote (w ++ b'\'' ∷ []) tail
              ∙ read-escape_quotes (w ++ b'\'' ∷ []) cs rest
              ∙ ap (λ d. shell_words (in_word (w ++ d ∷ [] ++ cs)) rest) (sym (quote_is c e))
              ∙ joined)
      | inr e ↦
          rw (e, escape_quotes)
            (quotes_other w c tail e ∙ read-escape_quotes (w ++ c ∷ []) cs rest ∙ joined)
    ]

-- The reader takes a quoted word for the word.
read-shell_quote :
    (s rest : Str) → shell_words between (shell_quote s ++ rest) ≡ shell_words (in_word s) rest
unfolding shell_quote all_safe
read-shell_quote [] rest = between_quote (b'\'' ∷ rest) ∙ quotes_end [] rest
read-shell_quote (c ∷ cs) rest = elim (Bool-cases (all_safe (c ∷ cs))) [
  | inl e ↦
      rw (e, shell_quote)
        (between_plain c (cs ++ rest) (kind-safe c (ground arith))
          ∙ read-safe (c ∷ []) cs rest (ground arith))
  | inr e ↦
      rw (e, shell_quote)
        (between_quote _
          ∙ ap (shell_words (in_quotes []))
              (append_assoc (escape_quotes (c ∷ cs)) (b'\'' ∷ []) rest)
          ∙ read-escape_quotes [] (c ∷ cs) rest)
]

-- A reader that keeps the quoting rules of the POSIX shell takes the line that is built from an argument
-- list for the words of the list, whatever bytes they have: none of them ends a word or is special to it.
pub shell_words-command_line :
    (argv : List Str) → shell_words between (command_line argv) ≡ some argv
unfolding command_line join shell_words with_word
shell_words-command_line [] = refl
shell_words-command_line (s ∷ []) =
    ap (shell_words between) (sym (append-nil (shell_quote s))) ∙ read-shell_quote s []
shell_words-command_line (s ∷ t ∷ ts) =
    read-shell_quote s (b' ' ∷ command_line (t ∷ ts))
    ∙ word_space s (command_line (t ∷ ts))
    ∙ ap (with_word (some s)) (shell_words-command_line (t ∷ ts))
