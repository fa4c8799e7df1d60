-- ===== src/Collect/Tests.antt =====
-- Runs of the merge of internal/collect/runner.go.
use plumbline.Collect.{merge_into}
use plumbline.Collect.Merge.{merge_into-at}
use plumbline.Fact.{Fact, Error, permission, Set, new_set, put, put_error}
use plumbline.Fact.Invariant.{
  IsConsistent, new_set-IsConsistent, put-IsConsistent, put_error-IsConsistent,
}
use plumbline.Base.Maps.{lookup}
use plumbline.Base.{codes, ℕ, ◌≡◌, none, if◌then◌else◌, is_some}

abbrev kernel : Fact ℕ
kernel = record { id = codes "os.kernel"; version = 1; value = 6; opaque = none }

abbrev denied : Error
denied = record {
  fact = codes "os.kernel";
  kind = permission;
  message = codes "permission denied";
  path = codes "/proc/version";
}

-- One collector saw the kernel; another was denied it.
abbrev shared : Set ℕ
shared = put kernel new_set

abbrev private_set : Set ℕ
private_set = put_error denied new_set

shared-IsConsistent : IsConsistent shared
shared-IsConsistent = put-IsConsistent kernel new_set new_set-IsConsistent

private_set-IsConsistent : IsConsistent private_set
private_set-IsConsistent = put_error-IsConsistent denied new_set new_set-IsConsistent

merge_into-at_example :
    (lookup (codes "os.kernel") (merge_into shared private_set).errors ≡ (
      if is_some (lookup (codes "os.kernel") private_set.errors)
      then lookup (codes "os.kernel") private_set.errors
      else if is_some (lookup (codes "os.kernel") private_set.facts)
      then none
      else lookup (codes "os.kernel") shared.errors))
    × (lookup (codes "os.kernel") (merge_into shared private_set).facts ≡ (
        if is_some (lookup (codes "os.kernel") private_set.errors)
        then none
        else if is_some (lookup (codes "os.kernel") private_set.facts)
        then lookup (codes "os.kernel") private_set.facts
        else lookup (codes "os.kernel") shared.facts))
merge_into-at_example =
    merge_into-at shared private_set (codes "os.kernel") private_set-IsConsistent
