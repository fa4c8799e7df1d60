-- ===== src/Remediate/Sysctl/Laws.antt =====
-- `Merge` of internal/remediate/sysctl.go.
use plumbline.Base.Maps.{Map, keys, contains, Distinct}
use plumbline.Base.Sorting.{sort_strings, sort_by-All}
use plumbline.Base.Distinct.{sort_strings-Distinct, contains-sort_strings}
use plumbline.Remediate.Sysctl.{split_lines, setting, value_of, set_keys, join_lines, merge}
use plumbline.Remediate.Sysctl.Keys.{key_byte, first_byte, IsKey}
use plumbline.Remediate.Sysctl.Lines.{
  setters, Settled, setters-set_keys, set_keys-Settled, set_keys_same,
}
use plumbline.Remediate.Sysctl.Texts.{Line, set_keys-Line, split_lines-Line, split_lines-join_lines}
use plumbline.Base.{
  Str, str_ltb, ◌≡◌, refl, ap, ◌∙◌, true, false, List, [], ◌∷◌, arith, All, All-append,
}

key_byte-Line : (cs : Str) → All (λ b. key_byte b ≡ true) cs → Line cs
unfolding key_byte
key_byte-Line [] h = tt
key_byte-Line (c ∷ cs) h = (ground (arith, h.0), key_byte-Line cs h.1)

setting-Line : (key value : Str) → IsKey key → Line value → Line (setting key value)
unfolding first_byte key_byte
setting-Line [] value k h = absurd k
setting-Line (c ∷ cs) value k h =
    (ground (arith, k.0), All-append _ cs _ (key_byte-Line cs k.1) (refl, (refl, (refl, h))))

All-zip :
    (pairs : Map Str) (ks : List Str)
    → All IsKey ks
    → All (λ k. Line (value_of pairs k)) ks
    → All (λ k. Line (setting k (value_of pairs k))) ks
All-zip pairs [] h k = tt
All-zip pairs (x ∷ xs) h k = (setting-Line x (value_of pairs x) h.0 k.0, All-zip pairs xs h.1 k.1)

-- The settings that can be written to a file: no key twice, and no line end in a value.
pub record IsSettings (pairs : Map Str) : Type 0 where
  pub distinct : Distinct (keys pairs)
  pub are_keys : All IsKey (keys pairs)
  pub values : All (λ k. Line (value_of pairs k)) (keys pairs)

module _ (existing : Str) (pairs : Map Str) (p : IsSettings pairs) where
  order : List Str
  order = sort_strings (keys pairs)

  order-IsKey : All IsKey order
  unfolding order
  order-IsKey = sort_by-All str_ltb IsKey (keys pairs) p.are_keys

  order-Line : All (λ k. Line (setting k (value_of pairs k))) order
  unfolding order
  order-Line =
      All-zip pairs order order-IsKey
        (sort_by-All str_ltb (λ k. Line (value_of pairs k)) (keys pairs) p.values)

  merged : List Str
  unfolding order
  merged = set_keys pairs order (split_lines existing)

  split_lines-merge : split_lines (merge existing pairs) ≡ merged
  unfolding merge merged order
  split_lines-merge =
      split_lines-join_lines merged
        (set_keys-Line pairs order (split_lines existing) order-Line (split_lines-Line existing))

  -- Settings that can be written to a file, with each key once, no mark of a comment or blank in a key and
  -- no line end in a value, change nothing when they are written a second time.
  pub merge_idem : merge (merge existing pairs) pairs ≡ merge existing pairs
  unfolding merge merged order
  merge_idem =
      ap (λ ls. join_lines (set_keys pairs order ls)) split_lines-merge
      ∙ ap join_lines (
          set_keys_same pairs order merged order-IsKey (
            set_keys-Settled pairs order (split_lines existing) order-IsKey
              (sort_strings-Distinct (keys pairs) p.distinct)))

  -- Settings with each key once, no mark of a comment or blank in a key and no line end in a value stand on
  -- one line each of the file that is written, and nothing else sets their keys; of every other key, and of
  -- no key, the lines are those that the file had, in their order.
  pub merge-Settled :
      Settled pairs (split_lines (merge existing pairs)) (sort_strings (keys pairs))
      × ((key : Str)
          → contains (keys pairs) key ≡ false
          → setters key (split_lines (merge existing pairs)) ≡ setters key (split_lines existing))
  unfolding merged order
  merge-Settled = (
    rw split_lines-merge (
        set_keys-Settled pairs order (split_lines existing) order-IsKey
          (sort_strings-Distinct (keys pairs) p.distinct)),
    λ key n. rw split_lines-merge (
        setters-set_keys pairs key order (split_lines existing) order-IsKey
          (contains-sort_strings (keys pairs) key ∙ n)),
  )
