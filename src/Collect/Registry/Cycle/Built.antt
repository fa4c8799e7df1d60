-- ===== src/Collect/Registry/Cycle/Built.antt =====
-- The registries that calls of `Register` of internal/collect/collect.go build.
use plumbline.Base.Maps.{lookup, insert, remove, keys, contains, Distinct, insert-Distinct}
use plumbline.Collect.Registry.{Node, Registry, known, planned, order}
use plumbline.Collect.Registry.Order.{IsOrder, order-IsOrder}
use plumbline.Collect.Registry.Cycle.{
  Search, cyclic, clear, too_deep, find_cycle, empty_id, duplicate_id, self_dependency,
  dependency_cycle, Registration, registered, panicked, unfinished, check_cycle, register,
}
use plumbline.Collect.Registry.Cycle.Paths.{IsCycle}
use plumbline.Collect.Registry.Cycle.Laws.{Verdict, find_cycle-Verdict}
use mathlib.Core.Path.{subst}
use plumbline.Base.{
  Str, is_empty, str_eq_refl, ◌≡◌, refl, inl, inr, true, false, none, List, [], ◌∷◌, arith,
  Bool-cases,
}

-- What a collector that is not registered leaves behind when it is taken out again.
remove-insert :
    (c : Node) (id : Str) (r : Registry) → lookup id r ≡ none → remove id (insert id c r) ≡ r
unfolding lookup insert remove
remove-insert c id [] h = ground (arith, str_eq_refl id)
remove-insert c id ((j, n) ∷ r) h = ground (arith, remove-insert c id r)

-- What a call of `Register` promises: each panic has its reason in the collector or in the registry with
-- it, and leaves the registry as it was.
abbrev pub Promise : Node → Registry → Registration → Type 0
Promise c r (registered r') =
    (r' ≡ insert c.id c r)
    × (known r c.id ≡ false)
    × ((l : List Str) × IsOrder r' l × ((x : Str) → known r' x ≡ true → contains l x ≡ true))
Promise c r (panicked empty_id r') = (r' ≡ r) × (is_empty c.id ≡ true)
Promise c r (panicked (duplicate_id id) r') = (r' ≡ r) × (id ≡ c.id) × (known r id ≡ true)
Promise c r (panicked (self_dependency id) r') =
    (r' ≡ r) × (id ≡ c.id) × (contains c.depends_on id ≡ true)
Promise c r (panicked (dependency_cycle path) r') = (r' ≡ r) × IsCycle (insert c.id c r) path
Promise c r unfinished = ⊥

check_cycle-Promise :
    (c : Node) (r : Registry) (o : Search)
    → known r c.id ≡ false
    → Verdict (insert c.id c r) o
    → Promise c r (check_cycle c.id (insert c.id c r) o)
unfolding check_cycle known
check_cycle-Promise c r (cyclic path) k v = (remove-insert c c.id r (ground arith), v)
check_cycle-Promise c r (clear w) k v = (refl, k, v)
check_cycle-Promise c r too_deep k v = v

-- Whatever is registered, `Register` returns: it adds the collector, and then there is an order of all
-- collectors, or it panics for one of its four reasons and leaves the registry as it was.
pub register-Promise : (c : Node) (r : Registry) → Promise c r (register c r)
unfolding register
register-Promise c r = elim (Bool-cases (is_empty c.id)) [
  | inl e ↦ rw (e, register) (refl, e)
  | inr e ↦ elim (Bool-cases (known r c.id)) [
    | inl k ↦ rw (e, k, register) (refl, refl, k)
    | inr k ↦ elim (Bool-cases (contains c.depends_on c.id)) [
      | inl s ↦ rw (e, k, s, register) (refl, refl, s)
      | inr s ↦
          rw (e, k, s, register)
            (check_cycle-Promise c r (find_cycle (insert c.id c r)) k
              (find_cycle-Verdict (insert c.id c r)))
    ]
  ]
]

-- A registry that calls of `Register` have built, none of which panicked.
pub data Built : Registry → Type 0 where
  empty : Built []
  add : {r r' : Registry} (c : Node) → Built r → register c r ≡ registered r' → Built r'

added : (c : Node) (r r' : Registry) → register c r ≡ registered r' → Promise c r (registered r')
added c r r' h = subst (Promise c r) h (register-Promise c r)

built-Distinct : {r : Registry} → Built r → Distinct (keys r)
unfolding keys
built-Distinct empty = tt
built-Distinct (add {r} {r'} c b h) =
    rw (added c r r' h).0 (insert-Distinct c.id c r (built-Distinct b))

built-Order :
    {r : Registry}
    → Built r
    → (l : List Str) × IsOrder r l × ((x : Str) → known r x ≡ true → contains l x ≡ true)
unfolding known lookup contains
built-Order empty = (
  [],
  record { distinct = tt; registered = λ x m. absurd (ground arith); respects = tt },
  λ x m. absurd (ground arith),
)
built-Order (add {r} {r'} c b h) = (added c r r' h).2

-- The order of a registry that `Register` has built has every collector exactly once, and each after the
-- registered collectors that it depends on.
pub order-Built :
    (r : Registry)
    → Built r
    → (out : List Str) × (order r ≡ planned out)
      × IsOrder r out
      × ((x : Str) → contains out x ≡ known r x)
order-Built r b =
    let (out, ends, in_order, most) = order-IsOrder r (built-Distinct b) in
    let (l, l_order, all) = built-Order b in
    (out, ends, in_order, λ x. ground (arith, in_order.registered x, all x, most l l_order x))
