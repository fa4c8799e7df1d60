-- ===== src/Unit/Assemble/Shadow.antt =====
-- The drop-ins that `applyDropIns` of internal/collect/unit/unit.go is to let apply, and its step on one
-- entry of a directory.
use plumbline.Unit.Assemble.{Candidate, Layers, max_drop_ins, admit, add_entry, same_inode}
use plumbline.Host.{Answer, answer, refuse, System, FileInfo, DirResult}
use plumbline.Go.Strings.{has_suffix}
use plumbline.Go.Path.{join_two, base}
use plumbline.Base.Maps.{
  lookup, keys, Distinct, insert_fresh, keys-append, Distinct-append, contains-keys, lookup-insert,
  lookup-insert_self,
}
use plumbline.Base.Sorting.{All-imp}
use mathlib.Core.Path.{subst}
use plumbline.Base.{
  any, Str, codes, str_eq, str_eq_iff, ℕ, ◌≡◌, refl, sym, ap, ◌∙◌, inl, inr, Bool, true, false, not,
  ◌&&◌, ◌||◌, Option, none, some, List, [], ◌∷◌, ◌++◌, map, arith, ◌==◌, if◌then◌else◌, Bool-cases,
  Option-cases, is_some, All, All-append_one,
}

-- A file that systemd reads as a drop-in.
unfoldable pub is_drop_in : FileInfo → Bool
is_drop_in e = has_suffix (base e.path) (codes ".conf") && not e.is_dir

-- The first of the drop-ins of a name.
unfoldable pub first_named : Str → List FileInfo → Option Str
first_named b [] = none
first_named b (e ∷ es) =
    if is_drop_in e && str_eq (base e.path) b then some e.path else first_named b es

unfoldable pub listed : Answer DirResult → List FileInfo
listed (refuse e) = []
listed (answer res) = res.entries

-- What is read of one directory, and which directories have been read then: one that has an inode
-- number is read once, under whatever name it is met.
unfoldable pub read_once :
    System → Str → List (ℕ × ℕ) → Answer FileInfo → List FileInfo × List (ℕ × ℕ)
read_once s dir seen (refuse e) = ([], seen)
read_once s dir seen (answer fi) =
    if not fi.is_dir || (not (fi.ino == 0) && any (same_inode (fi.dev, fi.ino)) seen)
    then ([], seen)
    else (
      listed (s.read_dir dir max_drop_ins),
      if fi.ino == 0 then seen else (fi.dev, fi.ino) ∷ seen,
    )

-- Every entry of the drop-in directories of a unit, those of the highest precedence first.
unfoldable pub listing : System → Str → List (ℕ × ℕ) → List Str → List FileInfo
unfolding read_once listed same_inode
listing s name seen [] = []
listing s name seen (root ∷ rest) =
    let dir = join_two root (name ++ codes ".d") in
    let (es, seen_after) = read_once s dir seen (s.stat dir) in es ++ listing s name seen_after rest

first_named-append :
    (b : Str) (es : List FileInfo) (e : FileInfo)
    → first_named b (es ++ e ∷ []) ≡ (
        if is_some (first_named b es)
        then first_named b es
        else if is_drop_in e && str_eq (base e.path) b
        then some e.path
        else none)
unfolding first_named
first_named-append b [] e = refl
first_named-append b (x ∷ es) e = ground (arith, first_named-append b es e)

names : List Candidate → List Str
names = map (λ c. c.name)

names-append :
    (ws : List Candidate) (w : Candidate) → names (ws ++ w ∷ []) ≡ names ws ++ w.name ∷ []
unfolding names
names-append [] w = refl
names-append (v ∷ ws) w = ap (λ l. v.name ∷ l) (names-append ws w)

-- A candidate is named after its file, and holds its name.
pub record Holds (l : Layers) (w : Candidate) : Type 0 where
  pub named : w.name ≡ base w.path
  pub won : lookup w.name l.seen_name ≡ some w.path

-- After the entries `es`, each name is held by the first drop-in of that name, and the candidates are
-- the holders, each once.
pub record Winning (es : List FileInfo) (l : Layers) : Type 0 where
  pub entries : keys l.seen_name ≡ map (λ c. c.name) l.winners
  pub distinct : Distinct (map (λ c. c.name) l.winners)
  pub first : (b : Str) → lookup b l.seen_name ≡ first_named b es
  pub holders : All (Holds l) l.winners

admit-Winning :
    (es : List FileInfo) (e : FileInfo) (l : Layers)
    → is_drop_in e ≡ true
    → lookup (base e.path) l.seen_name ≡ none
    → Winning es l
    → Winning (es ++ e ∷ []) (admit e l)
unfolding admit names
admit-Winning es e l c x h =
    let w : Candidate = record { name = base e.path; path = e.path } in
    let new = names-append l.winners w in
    record {
      entries =
          ap keys (insert_fresh (base e.path) e.path l.seen_name x)
          ∙ keys-append l.seen_name (base e.path) e.path
          ∙ ap (λ k. k ++ base e.path ∷ []) h.entries
          ∙ sym new;
      distinct = subst Distinct (sym new) (
          Distinct-append (names l.winners) (base e.path) h.distinct
            (ground (arith, contains-keys (base e.path) l.seen_name, h.entries)));
      first = λ b. ground (
        arith,
        lookup-insert (base e.path) b e.path l.seen_name,
        first_named-append b es e,
        h.first b,
        str_eq_iff (base e.path) b,
      );
      holders =
          All-append_one (Holds (admit e l)) l.winners w
            (All-imp (Holds l) (Holds (admit e l)) l.winners
              (λ v k. record {
                named = k.named;
                won = ground (
                  arith,
                  k.won,
                  lookup-insert (base e.path) v.name e.path l.seen_name,
                  str_eq_iff (base e.path) v.name,
                );
              })
              h.holders)
            (record { named = refl; won = lookup-insert_self (base e.path) e.path l.seen_name });
    }

-- An entry that is no drop-in, or whose name is held, changes nothing.
pass-Winning :
    (es : List FileInfo) (e : FileInfo) (l : Layers)
    → is_drop_in e && not (is_some (lookup (base e.path) l.seen_name)) ≡ false
    → Winning es l
    → Winning (es ++ e ∷ []) l
pass-Winning es e l c h = record {
  entries = h.entries;
  distinct = h.distinct;
  first = λ b. ground (arith, first_named-append b es e, h.first b, str_eq_iff (base e.path) b);
  holders = h.holders;
}

-- What only adds a fragment.
pub same-Winning :
    (es : List FileInfo) (l m : Layers)
    → m.seen_name ≡ l.seen_name
    → m.winners ≡ l.winners
    → Winning es l
    → Winning es m
same-Winning es l m p q h = record {
  entries = rw (p, q) h.entries;
  distinct = rw q h.distinct;
  first = λ b. rw p (h.first b);
  holders = subst (All (Holds m)) (sym q) (
      All-imp (Holds l) (Holds m) l.winners (λ v k. record { named = k.named; won = rw p k.won })
        h.holders);
}

pub add_entry-Winning :
    (es : List FileInfo) (e : FileInfo) (l : Layers)
    → Winning es l
    → Winning (es ++ e ∷ []) (add_entry e l)
unfolding add_entry is_drop_in
add_entry-Winning es e l h =
    elim (Bool-cases (not (has_suffix (base e.path) (codes ".conf")) || e.is_dir)) [
      | inl b ↦ rw b (pass-Winning es e l (ground arith) h)
      | inr b ↦ elim (Option-cases (lookup (base e.path) l.seen_name)) [
        | inl x ↦ rw (b, x) (admit-Winning es e l (ground arith) x h)
        | inr (won, x) ↦
            rw (b, x)
              (same-Winning (es ++ e ∷ []) l _ refl refl (pass-Winning es e l (ground arith) h))
      ]
    ]
