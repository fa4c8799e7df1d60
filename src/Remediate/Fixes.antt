-- ===== src/Remediate/Fixes.antt =====
-- The sysctl fixes of internal/remediate/sysctl.go.
use plumbline.Finding.{Finding}
use plumbline.Base.Maps.{Map, insert}
use plumbline.Remediate.Shell.{command_line}
use plumbline.Remediate.Engine.{Action, Fix, register}
use plumbline.Base.{Str, codes, is_empty, Option, none, some, List, [], ◌∷◌, ◌++◌, if◌then◌else◌}

-- `titleOf`
title_of : Finding → Str → Str
title_of f fallback = if is_empty f.title then fallback else f.title

-- The loop of `sysctlFix.Build`.
add_settings : List (Str × Str) → Action → Action
add_settings [] a = a
add_settings ((key, value) ∷ rest) a = add_settings rest (record a {
  commands =
      a.commands
      ++ command_line (codes "sysctl" ∷ codes "-w" ∷ (key ++ (codes "=" ++ value)) ∷ []) ∷ [];
  sysctl_pairs = insert key value a.sysctl_pairs;
})

-- `sysctlFix`
unfoldable pub sysctl_fix : Str → Str → List (Str × Str) → Fix
unfolding title_of add_settings
sysctl_fix check_id title settings = record {
  check_id = check_id;
  build = λ f opts. some (
      add_settings settings (record {
        check_id = check_id;
        title = title_of f title;
        notes = [];
        commands = [];
        sysctl_pairs = [];
      }));
}

register_all : List Fix → Map Fix → Option (Map Fix)
register_all [] registry = some registry
register_all (f ∷ fs) registry = elim (register f registry) [
  | none ↦ none
  | some registry' ↦ register_all fs registry'
]

-- `init`
unfoldable pub sysctl_fixes : List Fix
sysctl_fixes =
    sysctl_fix (codes "KERNEL-0004")
      (codes "The kernel ring buffer is not readable by unprivileged users")
      ((codes "kernel.dmesg_restrict", codes "1") ∷ [])
    ∷ sysctl_fix (codes "KERNEL-0016") (codes "TCP SYN cookies are enabled")
        ((codes "net.ipv4.tcp_syncookies", codes "1") ∷ [])
    ∷ sysctl_fix (codes "KERNEL-0026")
        (codes "IPv6 router advertisements are refused in the sysctl configuration")
        ((codes "net.ipv6.conf.all.accept_ra", codes "0")
          ∷ (codes "net.ipv6.conf.default.accept_ra", codes "0")
          ∷ [])
    ∷ sysctl_fix (codes "KERNEL-0030")
        (codes "Hardlink protection is written to the sysctl configuration")
        ((codes "fs.protected_hardlinks", codes "1") ∷ [])
    ∷ []

-- The registry with these fixes, if none of them panics.
unfoldable pub sysctl_registry : Option (Map Fix)
unfolding register_all
sysctl_registry = register_all sysctl_fixes []
