-- ===== src/Walker/Collector.antt =====
-- The registry of questions of internal/collect/walker, and the collector that asks them.
pub mod Produced
use plumbline.Base.{
  tally, any, Str, codes, str_eq, str_ltb, ℕ, ◌+◌, Bool, true, false, ◌&&◌, none, some, List, [],
  ◌∷◌, ◌++◌, map, ◌==◌, if◌then◌else◌, length,
}
use plumbline.Base.Sorting.{sort_by}
use plumbline.Fact.{Fact, Set, put}
use plumbline.Fact.Fs.{fs_fact_id, fs_tally_fact_id, FsMatches, FsTally}
use plumbline.Fact.Mounts.{Mounts}
use plumbline.Host.{System}
use plumbline.Walker.Mounts.{read_mount_table}
use plumbline.Walker.Mounts
use plumbline.Walker.Questions.{Interest, Tally, Invalid, validate_interest, validate_tally}
use plumbline.Walker.State.{Config, Clock}
use plumbline.Walker.Run.{Result, Walked, walked, refused, out_of_fuel, WalkError, walk}

-- The variables `registry`, `tallyRegistry` and `sealed`.
pub record Questions : Type 0 where
  pub interests : List Interest
  pub tallies : List Tally
  pub sealed : Bool

abbrev pub no_questions : Questions
no_questions = record { interests = []; tallies = []; sealed = false }

-- The panics of `Register` and `RegisterTally`.
pub data Panic : Type 0 where
  too_late duplicate : Panic
  unusable : Invalid → Panic

pub data Registration : Type 0 where
  registered : Questions → Registration
  panicked : Panic → Registration

-- `Register`
unfoldable pub register : Interest → Questions → Registration
register i q = if q.sealed then panicked too_late else elim (validate_interest i) [
  | some e ↦ panicked (unusable e)
  | none ↦
      if any (λ (have : Interest). str_eq have.name i.name) q.interests
      then panicked duplicate
      else registered (record q { interests = q.interests ++ i ∷ [] })
]

-- `RegisterTally`
unfoldable pub register_tally : Tally → Questions → Registration
register_tally t q = if q.sealed then panicked too_late else elim (validate_tally t) [
  | some e ↦ panicked (unusable e)
  | none ↦
      if any (λ (have : Tally). str_eq have.name t.name) q.tallies
      then panicked duplicate
      else registered (record q { tallies = q.tallies ++ t ∷ [] })
]

abbrev interest_less : Interest → Interest → Bool
interest_less a b = str_ltb a.name b.name

abbrev tally_less : Tally → Tally → Bool
tally_less a b = str_ltb a.name b.name

-- `Interests`, which seals the registry.
unfoldable pub interests_of : Questions → List Interest
interests_of q = sort_by interest_less q.interests

-- `Tallies`, which does so too.
unfoldable pub tallies_of : Questions → List Tally
tallies_of q = sort_by tally_less q.tallies

unfoldable pub seal : Questions → Questions
seal q = record q { sealed = true }

abbrev pub mounts_id : Str
mounts_id = codes "fs.mounts"

-- `Produces`
unfoldable pub produces : Questions → List Str
produces q =
    map (λ (i : Interest). fs_fact_id i.name) (interests_of q)
    ++ (map (λ (t : Tally). fs_tally_fact_id t.name) (tallies_of q) ++ mounts_id ∷ [])

-- The values of the facts of the walk.
pub data WalkFact : Type 0 where
  matches_fact : FsMatches → WalkFact
  tally_fact : FsTally → WalkFact
  mounts_fact : Mounts → WalkFact

-- `FactID` and `FactVersion` of a fact with its value.
unfoldable pub fact_of : WalkFact → Fact WalkFact
fact_of (matches_fact m) = record {
  id = fs_fact_id m.interest;
  version = 1;
  value = matches_fact m;
  opaque = none;
}
fact_of (tally_fact t) = record {
  id = fs_tally_fact_id t.tally;
  version = 1;
  value = tally_fact t;
  opaque = none;
}
fact_of (mounts_fact m) = record {
  id = mounts_id;
  version = 1;
  value = mounts_fact m;
  opaque = none;
}

unfoldable pub put_all : List WalkFact → Set WalkFact → Set WalkFact
put_all [] fs = fs
put_all (v ∷ vs) fs = put_all vs (put (fact_of v) fs)

-- The facts of a result, in the order in which they are written.
unfoldable pub written : Result → List WalkFact
written r = map matches_fact r.facts ++ (map tally_fact r.tally_facts ++ mounts_fact r.mounts ∷ [])

-- The questions of the registry in the configuration of the collector.
unfoldable pub asking : Config → Questions → Config
asking cfg q = record cfg { interests = interests_of q; tallies = tallies_of q }

-- What `Collect` leaves: the set of facts, or an error; `no_fuel` is of the model.
pub data Collected : Type 0 where
  wrote : Set WalkFact → Collected
  failed_with : WalkError → Collected
  no_fuel : Collected

unfoldable pub write_result : Set WalkFact → Walked → Collected
write_result fs (walked r) = wrote (put_all (written r) fs)
write_result fs (refused e) = failed_with e
write_result fs out_of_fuel = no_fuel

-- `Collect`
unfoldable pub collect : Config → Clock → System → Questions → Set WalkFact → Collected
collect cfg clock s q fs =
    if length (interests_of q) == 0 && length (tallies_of q) == 0
    then wrote
        (put (fact_of (mounts_fact (plumbline.Walker.Mounts.as_fact (read_mount_table s)))) fs)
    else write_result fs (walk (asking cfg q) clock s)

-- `Timeout`: a minute more than the budget of the walk, or five.
unfoldable pub timeout : Config → ℕ
timeout cfg = if cfg.budget == 0 then 300000000000 else cfg.budget + 60000000000
