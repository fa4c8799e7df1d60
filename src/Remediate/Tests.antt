-- ===== src/Remediate/Tests.antt =====
-- Plans, command lines and merges at concrete inputs.
use plumbline.Finding.{Finding, fail, unknown, high}
use plumbline.Finding.Samples.{sample}
use plumbline.Go.Strings.{trim_left, trim_right, split, cut, join, cons_first}
use plumbline.Base.Text.{has_prefix}
use plumbline.Base.Maps.{Map, lookup, insert, keys, contains}
use plumbline.Base.Sorting.{sort_by, sort_strings}
use plumbline.Remediate.Sysctl.{merge, split_lines}
use plumbline.Remediate.Sysctl.Keys.{key_byte, first_byte}
use plumbline.Remediate.Sysctl.Lines.{setters, Settled}
use plumbline.Remediate.Sysctl.Laws.{IsSettings, merge_idem, merge-Settled}
use plumbline.Remediate.Shell.{command_line, is_safe}
use plumbline.Remediate.Shell.Words.{between, shell_words, shell_words-command_line}
use plumbline.Remediate.Engine.{Options, Fix, Helper, generate, helpers_for, occurs}
use plumbline.Remediate.Engine.{bodies}
use plumbline.Remediate.Engine.Helpers.{Closed, helpers_for-Closed}
use plumbline.Remediate.Engine.{register}
use plumbline.Remediate.Fixes.{sysctl_fix, sysctl_fixes, sysctl_registry}
use plumbline.Base.{
  any, Str, codes, str_eq, str_ltb, ◌≡◌, refl, false, none, some, List, [], ◌∷◌, map, arith,
}

abbrev wanted_pairs : Map Str
wanted_pairs =
    (codes "net.ipv4.tcp_syncookies", codes "1") ∷ (codes "kernel.dmesg_restrict", codes "1") ∷ []

-- A file with a comment, a key that is marked to be skipped, and a duplicate.
abbrev drop_in_file : Str
drop_in_file =
    codes "# local\n-kernel.dmesg_restrict = 0\nvm.swappiness=10\nkernel.dmesg_restrict=0\n"

merge-drop_in_file :
    merge drop_in_file wanted_pairs
    ≡ codes "# local\nkernel.dmesg_restrict = 1\nvm.swappiness=10\nnet.ipv4.tcp_syncookies = 1\n"
unfolding merge keys sort_by str_ltb lookup str_eq split cons_first cut join trim_left trim_right
    has_prefix
merge-drop_in_file = refl

-- A key with a dash in front is not found again, so it is written each time.
merge-dash :
    merge (merge [] ((codes "-a", codes "1") ∷ [])) ((codes "-a", codes "1") ∷ [])
    ≡ codes "-a = 1\n-a = 1\n"
unfolding merge keys sort_by str_ltb lookup str_eq split cons_first cut join trim_left trim_right
    has_prefix
merge-dash = refl

wanted_pairs-IsSettings : IsSettings wanted_pairs
unfolding keys contains str_eq lookup key_byte first_byte
wanted_pairs-IsSettings = record {
  distinct = ground arith;
  are_keys = ground arith;
  values = ground arith;
}

merge_idem_example :
    merge (merge drop_in_file wanted_pairs) wanted_pairs ≡ merge drop_in_file wanted_pairs
merge_idem_example = merge_idem drop_in_file wanted_pairs wanted_pairs-IsSettings

merge-Settled_example :
    Settled wanted_pairs
      (split_lines (merge drop_in_file wanted_pairs))
      (sort_strings (keys wanted_pairs))
    × ((key : Str)
        → contains (keys wanted_pairs) key ≡ false
        → setters key (split_lines (merge drop_in_file wanted_pairs))
          ≡ setters key (split_lines drop_in_file))
merge-Settled_example = merge-Settled drop_in_file wanted_pairs wanted_pairs-IsSettings

-- A file name that would start a command if it were not quoted.
abbrev argv : List Str
argv = codes "chmod" ∷ codes "600" ∷ codes "/srv/a b'; rm -rf $HOME" ∷ [] ∷ []

command_line-argv : command_line argv ≡ codes "chmod 600 '/srv/a b'\\''; rm -rf $HOME' ''"
unfolding command_line is_safe any join
command_line-argv = refl

shell_words-command_line_example : shell_words between (command_line argv) ≡ some argv
shell_words-command_line_example = shell_words-command_line argv

abbrev findings : List Finding
findings =
    sample (codes "SSHD-0001") [] fail high
    ∷ sample (codes "KERNEL-0016") [] fail high
    ∷ sample (codes "KERNEL-0030") [] unknown high
    ∷ sample (codes "KERNEL-0004") [] fail high
    ∷ []

abbrev options : Options
options = record { drop_in = []; unit_dir = [] }

abbrev fixes : Map Fix
fixes = elim sysctl_registry [ none ↦ [] | some r ↦ r ]

generate-findings :
    map (λ a. a.check_id) (generate fixes findings options).actions
    ≡ codes "KERNEL-0004" ∷ codes "KERNEL-0016" ∷ []
unfolding generate sysctl_registry sysctl_fixes register sysctl_fix lookup insert str_eq sort_by
    str_ltb
generate-findings = refl

abbrev helpers : List Helper
helpers =
    record { call = codes "pl_backup"; body = codes "pl_backup() {}" }
    ∷ record { call = codes "pl_set"; body = codes "pl_set() { pl_backup; }" }
    ∷ record { call = codes "pl_json"; body = codes "pl_json() {}" }
    ∷ []

-- A helper that another helper calls is defined too, in front of it.
helpers_for-pl_set :
    helpers_for helpers (codes "pl_set a")
    ≡ some (codes "pl_backup() {}" ∷ codes "pl_set() { pl_backup; }" ∷ [])
unfolding helpers_for occurs has_prefix any str_eq
helpers_for-pl_set = refl

helpers_for-Closed_example :
    (want : List Str) × (helpers_for helpers (codes "pl_set a") ≡ some (bodies helpers want))
    × Closed helpers (codes "pl_set a") want
unfolding str_eq
helpers_for-Closed_example =
    helpers_for-Closed helpers (codes "pl_set a") ((refl, (refl, tt)), ((refl, tt), (tt, tt)))
