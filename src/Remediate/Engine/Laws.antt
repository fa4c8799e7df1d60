-- ===== src/Remediate/Engine/Laws.antt =====
-- What `Generate` of internal/remediate/engine.go proposes, and what it leaves alone.
use mathlib.Core.List.{Memᴰ}
use plumbline.Finding.{Finding, fail}
use plumbline.Base.Maps.{Map}
use plumbline.Remediate.Engine.{
  Options, Action, Fix, Plan, build_action, or_default, default_unit_dir, default_drop_in,
}
use plumbline.Base.{ℕ, ◌+◌, ◌≡◌, none, some, List, [], length, All}

-- A finding that failed and was not accepted.
abbrev pub Due : Finding → Type 0
Due f = (f.result ≡ fail) × (f.suppression ≡ none)

module _ (registry : Map Fix) (opts : Options) (findings : List Finding) where
  -- What an action may be proposed for.
  abbrev pub Proposed : Action → Type 0
  Proposed a = (f : Finding) × Memᴰ f findings × Due f × (build_action registry opts f ≡ some a)

  -- What may be listed as not fixable.
  abbrev pub Left : Finding → Type 0
  Left f = Memᴰ f findings × Due f × (build_action registry opts f ≡ none)

  abbrev Sound : Plan → Type 0
  Sound p = All Proposed p.actions × All Left p.unfixable

  abbrev size : Plan → ℕ
  size p = length p.actions + length p.unfixable

  start : Plan
  start = record {
    actions = [];
    unit_dir = or_default opts.unit_dir default_unit_dir;
    unfixable = [];
    drop_in = or_default opts.drop_in default_drop_in;
  }
