-- ===== src/Walker/Steps.antt =====
-- Postconditions of the steps of the walk.
use plumbline.Walker.State.{WalkState, Flow, go, halt, then_on}

module _ {A : Type 0} where
  -- A step that goes on does so with `P`, and one that halts, with `Q`.
  pub data Ensures (P : A → WalkState → Type 0) (Q : WalkState → Type 0) : Flow A → Type 0 where
    on_go : {a : A} {st : WalkState} → P a st → Ensures P Q (go a st)
    on_halt : {st : WalkState} → Q st → Ensures P Q (halt st)

module _ {A B : Type 0} {P : A → WalkState → Type 0} {P' : B → WalkState → Type 0}
    {Q : WalkState → Type 0} where
  pub Ensures-then_on :
      {m : Flow A} {f : A → WalkState → Flow B}
      → Ensures P Q m
      → ((a : A) (st : WalkState) → P a st → Ensures P' Q (f a st))
      → Ensures P' Q (then_on m f)
  Ensures-then_on (on_go p) k = k _ _ p
  Ensures-then_on (on_halt q) k = on_halt q

module _ {A : Type 0} {P P' : A → WalkState → Type 0} {Q Q' : WalkState → Type 0} where
  pub Ensures-imp :
      {m : Flow A}
      → Ensures P Q m
      → ((a : A) (st : WalkState) → P a st → P' a st)
      → ((st : WalkState) → Q st → Q' st)
      → Ensures P' Q' m
  Ensures-imp (on_go p) h k = on_go (h _ _ p)
  Ensures-imp (on_halt q) h k = on_halt (k _ q)
