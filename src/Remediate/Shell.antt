-- ===== src/Remediate/Shell.antt =====
-- `shellQuote` and `command` of internal/remediate/engine.go. A character outside ASCII is never in the safe
-- set, and neither is a byte of one, so the bytes are looked at one by one.
pub mod Words
use plumbline.Go.Strings.{join}
use plumbline.Base.{
  any, Str, codes, is_empty, ℕ, Bool, true, ◌&&◌, ◌||◌, List, [], ◌∷◌, ◌++◌, map, leb, ◌==◌,
  if◌then◌else◌,
}

-- The plainly safe set.
unfoldable pub is_safe : ℕ → Bool
is_safe c =
    (leb b'a' c && leb c b'z')
    || ((leb b'A' c && leb c b'Z')
        || ((leb b'0' c && leb c b'9') || any (λ d. d == c) (codes "-_./=:,+@")))

all_safe : Str → Bool
unfolding is_safe any
all_safe [] = true
all_safe (c ∷ cs) = is_safe c && all_safe cs

-- `strings.ReplaceAll(s, "'", ...)` with the text that closes the quotes, adds one and opens them again.
escape_quotes : Str → Str
escape_quotes [] = []
escape_quotes (c ∷ cs) =
    let rest = escape_quotes cs in
    if c == b'\'' then b'\'' ∷ b'\\' ∷ b'\'' ∷ b'\'' ∷ rest else c ∷ rest

-- `shellQuote`
pub shell_quote : Str → Str
unfolding all_safe escape_quotes
shell_quote s =
    if is_empty s
    then codes "''"
    else if all_safe s
    then s
    else b'\'' ∷ (escape_quotes s ++ codes "'")

-- The line that `command` appends.
unfoldable pub command_line : List Str → Str
unfolding shell_quote all_safe escape_quotes join
command_line argv = join (codes " ") (map shell_quote argv)
