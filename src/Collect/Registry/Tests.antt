-- ===== src/Collect/Registry/Tests.antt =====
-- Three collectors, and runs of the registry on them.
use plumbline.Base.Maps.{lookup, insert, remove, keys, contains}
use plumbline.Base.Sorting.{sort_by}
use plumbline.Collect.Registry.{
  Node, Registry, known, ids, known_deps, dedupe, deps, planned, order, missing_dependencies,
}
use plumbline.Collect.Registry.Order.{IsOrder, order-IsOrder}
use plumbline.Collect.Registry.Cycle.{find_cycle, register, panicked, dependency_cycle}
use plumbline.Collect.Registry.Cycle.Laws.{Verdict, find_cycle-Verdict}
use plumbline.Collect.Registry.Cycle.Built.{
  Promise, register-Promise, Built, empty, add, order-Built,
}
use plumbline.Base.{select, Str, codes, str_eq, str_ltb, ◌≡◌, refl, true, List, [], ◌∷◌}

abbrev walk : Node
walk = record { id = codes "fs.walk"; depends_on = codes "os" ∷ codes "os" ∷ codes "absent" ∷ [] }

abbrev os : Node
os = record { id = codes "os"; depends_on = [] }

abbrev kernel : Node
kernel = record { id = codes "kernel"; depends_on = codes "fs.walk" ∷ codes "os" ∷ [] }

-- A collector that closes a cycle with `walk` and `kernel` once it replaces `os`.
abbrev looping : Node
looping = record { id = codes "os"; depends_on = codes "kernel" ∷ [] }

abbrev two : Registry
two = insert (codes "kernel") kernel (insert (codes "fs.walk") walk [])

abbrev three : Registry
three = insert (codes "os") os two

order-three : order three ≡ planned (codes "os" ∷ codes "fs.walk" ∷ codes "kernel" ∷ [])
unfolding order ids known_deps dedupe deps known lookup insert keys contains sort_by str_ltb str_eq
    select
order-three = refl

missing_dependencies-three :
    missing_dependencies three ≡ (codes "fs.walk", codes "absent" ∷ []) ∷ []
unfolding missing_dependencies ids known_deps dedupe deps known lookup insert keys contains sort_by
    str_ltb str_eq select
missing_dependencies-three = refl

register-looping :
    register looping two
    ≡ panicked
        (dependency_cycle (codes "fs.walk" ∷ codes "os" ∷ codes "kernel" ∷ codes "fs.walk" ∷ []))
        two
unfolding register find_cycle ids dedupe deps known lookup insert remove keys contains sort_by
    str_ltb str_eq select
register-looping = refl

order-IsOrder_example :
    (out : List Str) × (order two ≡ planned out)
    × IsOrder two out
    × ((l : List Str) → IsOrder two l → (x : Str) → contains l x ≡ true → contains out x ≡ true)
unfolding keys insert contains str_eq
order-IsOrder_example = order-IsOrder two (refl, (refl, tt))

find_cycle-Verdict_example : Verdict three (find_cycle three)
find_cycle-Verdict_example = find_cycle-Verdict three

register-Promise_example : Promise looping two (register looping two)
register-Promise_example = register-Promise looping two

two-Built : Built two
unfolding register find_cycle ids dedupe deps known lookup insert remove keys contains sort_by
    str_ltb str_eq select
two-Built = add kernel (add walk empty refl) refl

order-Built_example :
    (out : List Str) × (order three ≡ planned out)
    × IsOrder three out
    × ((x : Str) → contains out x ≡ known three x)
unfolding register find_cycle ids dedupe deps known lookup insert remove keys contains sort_by
    str_ltb str_eq select
order-Built_example = order-Built three (add os two-Built refl)
