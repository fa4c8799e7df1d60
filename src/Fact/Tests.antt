-- ===== src/Fact/Tests.antt =====
-- Runs of internal/fact/fact.go, over facts with numbers for values.
use plumbline.Fact.{Fact, Error, permission, failed, new_set, put, put_error, present, get}
use plumbline.Base.Maps.{lookup, insert, remove}
use plumbline.Base.{codes, str_eq, ℕ, ◌≡◌, refl, none, some}

abbrev kernel : Fact ℕ
kernel = record { id = codes "os.kernel"; version = 1; value = 6; opaque = none }

abbrev denied : Error
denied = record {
  fact = codes "os.kernel";
  kind = permission;
  message = codes "permission denied";
  path = codes "/proc/version";
}

-- An error takes the place of the fact of its name, and a fact that of the error.
get-denied :
    get {V = ℕ} some (λ id. id) (put_error denied (put kernel new_set)) (codes "os.kernel")
    ≡ failed denied
unfolding get new_set put put_error lookup insert remove str_eq
get-denied = refl

get-kernel :
    get {V = ℕ} some (λ id. id) (put kernel (put_error denied new_set)) (codes "os.kernel")
    ≡ present 6
unfolding get new_set put put_error lookup insert remove str_eq
get-kernel = refl
