-- ===== src/Collect/Registry.antt =====
-- `Registry` of internal/collect/collect.go: the collectors by ID, the order in which they run, and the
-- search for a dependency cycle.
mod Counting
mod Releasing
mod Rounds
pub mod Order
pub mod Cycle
mod Tests
use plumbline.Base.Maps.{Map, lookup, insert, keys, contains}
use plumbline.Base.Sorting.{sort_strings}
use plumbline.Base.{
  select, Str, ℕ, zero, suc, ◌+◌, ◌-◌, Bool, true, false, not, none, some, List, [], ◌∷◌, ◌++◌,
  ◌==◌, if◌then◌else◌, is_some, length,
}

-- The methods of `Collector` that the registry calls.
pub record Node : Type 0 where
  pub id : Str
  pub depends_on : List Str

-- `Registry.byID`
abbrev pub Registry : Type 0
Registry = Map Node

unfoldable pub known : Registry → Str → Bool
known r d = is_some (lookup d r)

-- `Registry.IDs`
unfoldable pub ids : Registry → List Str
ids r = sort_strings (keys r)

-- The loop of `dedupe`.
dedupe_from : List Str → List Str → List Str
dedupe_from seen [] = []
dedupe_from seen (s ∷ rest) = elim (contains seen s) [
  | true ↦ dedupe_from seen rest
  | false ↦ s ∷ dedupe_from (s ∷ seen) rest
]

-- `dedupe`
unfoldable pub dedupe : List Str → List Str
unfolding dedupe_from
dedupe l = sort_strings (dedupe_from [] l)

-- `r.byID[id].DependsOn()`, for an ID that is registered.
unfoldable pub deps : Registry → Str → List Str
deps r id = elim (lookup id r) [ none ↦ [] | some c ↦ c.depends_on ]

-- `Registry.knownDeps`
unfoldable pub known_deps : Registry → Str → List Str
unfolding known dedupe deps
known_deps r id = select (known r) (dedupe (deps r id))

-- `Registry.MissingDependencies`
missing_of : Registry → List Str → Map (List Str)
unfolding dedupe deps known
missing_of r [] = []
missing_of r (id ∷ rest) =
    let missing = select (λ d. not (known r d)) (dedupe (deps r id)) in
    let others = missing_of r rest in if length missing == 0 then others else (id, missing) ∷ others

unfoldable pub missing_dependencies : Registry → Map (List Str)
unfolding missing_of ids
missing_dependencies r = missing_of r (ids r)

-- The two maps of `Order`. What a map does not hold reads as 0 or as empty.
pub record Counts : Type 0 where
  pub indegree : Map ℕ
  pub dependents : Map (List Str)

unfoldable pub count : Map ℕ → Str → ℕ
count m k = elim (lookup k m) [ none ↦ 0 | some n ↦ n ]

unfoldable pub listed : Map (List Str) → Str → List Str
listed m k = elim (lookup k m) [ none ↦ [] | some l ↦ l ]

zero_all : List Str → Map ℕ → Map ℕ
zero_all [] m = m
zero_all (id ∷ rest) m = zero_all rest (insert id 0 m)

count_dep : Str → Str → Counts → Counts
unfolding count listed
count_dep id d c = record {
  indegree = insert id (count c.indegree id + 1) c.indegree;
  dependents = insert d (listed c.dependents d ++ id ∷ []) c.dependents;
}

count_deps : Str → List Str → Counts → Counts
unfolding count_dep
count_deps id [] c = c
count_deps id (d ∷ ds) c = count_deps id ds (count_dep id d c)

count_all : Registry → List Str → Counts → Counts
unfolding count_deps
count_all r [] c = c
count_all r (id ∷ rest) c = count_all r rest (count_deps id (known_deps r id) c)

pub counts : Registry → Counts
unfolding count_all zero_all
counts r = count_all r (ids r) (record { indegree = zero_all (ids r) []; dependents = [] })

-- The variables of the main loop of `Order`.
pub record Plan : Type 0 where
  pub indegree : Map ℕ
  pub ready : List Str
  pub out : List Str

-- `indegree[d]--`: the counts of the program may fall below 0, which differs from 0 only in that it does
-- not count as reached.
release : Str → Plan → Plan
unfolding count
release d p = record p {
  indegree = insert d (count p.indegree d - 1) p.indegree;
  ready = if count p.indegree d == 1 then p.ready ++ d ∷ [] else p.ready;
}

pub release_all : List Str → Plan → Plan
unfolding release
release_all [] p = p
release_all (d ∷ ds) p = release_all ds (release d p)

-- One round, after the first of the collectors that are ready was taken.
pub take_ready : Map (List Str) → Str → List Str → Plan → Plan
take_ready dependents id rest p =
    release_all (sort_strings (listed dependents id))
      (record p { ready = rest; out = p.out ++ id ∷ [] })

pub data Ordering : Type 0 where
  planned : List Str → Ordering
  out_of_fuel : Ordering

pub plan : Map (List Str) → ℕ → Plan → Ordering
plan dependents zero p = elim (p.ready) [ [] ↦ planned p.out | _ ∷ _ ↦ out_of_fuel ]
plan dependents (suc fuel) p = elim (sort_strings p.ready) [
  | [] ↦ planned p.out
  | id ∷ rest ↦ plan dependents fuel (take_ready dependents id rest p)
]

pub start : Registry → Plan
start r = record {
  indegree = (counts r).indegree;
  ready = select (λ id. count (counts r).indegree id == 0) (ids r);
  out = [];
}

-- `Registry.Order`, with one round of fuel for each collector.
unfoldable pub order : Registry → Ordering
unfolding plan start counts take_ready release_all listed count
order r = plan (counts r).dependents (length (ids r)) (start r)
