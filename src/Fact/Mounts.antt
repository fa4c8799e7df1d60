-- ===== src/Fact/Mounts.antt =====
-- internal/fact/mounts.go: the mount table as a fact.
use plumbline.Base.{
  Str, codes, str_eq, Bool, ◌||◌, Option, none, some, List, [], ◌∷◌, ◌++◌, map, leb, if◌then◌else◌,
  length,
}
use plumbline.Base.Maps.{contains}
use plumbline.Base.Sorting.{sort_by, sort_strings}
use plumbline.Base.Text.{has_prefix}
use plumbline.Go.Path.{clean}
use plumbline.Go.Strings.{has_suffix, drop_last}

pub record Mount : Type 0 where
  pub point : Str
  pub fstype : Str
  pub options : List Str
  pub super_opts : List Str

-- `Has`
unfoldable pub has : Mount → Str → Bool
unfolding contains
has m option = contains m.options option

-- `Missing`
unfoldable pub missing_options : Mount → List Str → List Str
unfolding has
missing_options m [] = []
missing_options m (o ∷ os) = let rest = missing_options m os in if has m o then rest else o ∷ rest

pub record Mounts : Type 0 where
  pub entries : List Mount
  pub known : Bool

-- The loop of `At`, with what it has found so far.
unfoldable pub at_from : Str → List Mount → Option Mount → Option Mount
at_from want [] found = found
at_from want (e ∷ es) found = at_from want es (if str_eq e.point want then some e else found)

-- `At`
unfoldable pub at : Mounts → Str → Option Mount
at m point = at_from (clean point) m.entries none

-- `strings.TrimSuffix(point, "/") + "/"`
unfoldable pub as_prefix : Str → Str
unfolding has_suffix drop_last
as_prefix point = (if has_suffix point (codes "/") then drop_last point else point) ++ codes "/"

-- Whether the mount at `point` holds the path.
unfoldable pub holds : Str → Str → Bool
unfolding as_prefix has_prefix
holds want point = str_eq point want || has_prefix want (as_prefix point)

-- The better one of two mounts: the later one of the longest points.
unfoldable pub better : Mount → Option Mount → Option Mount
better e none = some e
better e (some best) = if leb (length best.point) (length e.point) then some e else some best

-- The loop of `Governing`.
unfoldable pub governing_from : Str → List Mount → Option Mount → Option Mount
unfolding better
governing_from want [] best = best
governing_from want (e ∷ es) best =
    governing_from want es (if holds want e.point then better e best else best)

-- `Governing`
unfoldable pub governing : Mounts → Str → Option Mount
governing m p = governing_from (clean p) m.entries none

-- `Points`
unfoldable pub points : Mounts → List Str
unfolding sort_by
points m = sort_strings (map (λ e. e.point) m.entries)
