-- ===== src/Unit/Read.antt =====
-- `readFragment` of internal/collect/unit/unit.go and `NotText` of internal/collect/textfile.go.
pub mod Laws
use plumbline.Unit.{
  UnitState, present, absent, masked, denied, not_regular, truncated, error, FragmentKind, Fragment,
  blank_fragment,
}
use plumbline.Host.{
  ErrorClass, not_exist, permission, not_symlink, HostError, answer, refuse, System,
}
use plumbline.Go.Decimal.{decimal}
use plumbline.Go.Path.{is_abs, clean, join_two, dir}
use plumbline.Base.{
  Str, codes, str_eq, ℕ, zero, suc, ◌+◌, not, Option, none, some, [], ◌∷◌, ◌++◌, ◌==◌,
  if◌then◌else◌,
}

abbrev pub max_read : ℕ
max_read = 1048576

abbrev pub max_link_hops : ℕ
max_link_hops = 4

-- `StateFor`
unfoldable pub state_for : HostError → UnitState
state_for e = elim e.class [
  | permission ↦ denied
  | not_exist ↦ absent
  | ErrorClass.not_regular ↦ not_regular
  | not_symlink ↦ not_regular
  | _ ↦ error
]

-- `errMsg`
error_message : HostError → Str
error_message e = elim e.class [
  | permission ↦ codes "the file exists and could not be read"
  | _ ↦ e.text
]

-- `resolveLink`
unfoldable pub resolve_link : Str → Str → Str
resolve_link link dest = if is_abs dest then clean dest else clean (join_two (dir link) dest)

-- `bytes.IndexByte(data, 0)`, counting from a number.
nul_from : ℕ → Str → Option ℕ
nul_from i [] = none
nul_from i (c ∷ cs) = let rest = nul_from (i + 1) cs in if c == 0 then some i else rest

-- `collect.NotText`: the reason that the bytes are no text.
unfoldable pub not_text : Str → Option Str
unfolding nul_from
not_text bytes = elim (nul_from 0 bytes) [
  | none ↦ none
  | some i ↦ some (
      codes "contains a NUL byte at offset "
      ++ (decimal i
          ++ codes
              ", so it is not the text configuration file it was read as; every parser on this host stops at that byte or refuses the file"))
]

-- What becomes of a path whose links are followed: a fragment that was not read, or the path of a
-- regular file.
pub data Followed : Type 0 where
  stopped : Fragment → Followed
  reached : Str → Fragment → Followed

refused : HostError → Fragment → Fragment
unfolding state_for error_message
refused e f = record f { state = state_for e; message = error_message e }

-- One link: masked, or followed further by `rest`.
follow_link : (Str → Fragment → Followed) → Fragment → Str → Followed
follow_link rest f target =
    if str_eq target (codes "/dev/null")
    then stopped (record f {
      resolved = target;
      state = masked;
      message =
          codes
            "the unit is masked: it is a symbolic link to /dev/null, so systemd will not start it";
    })
    else rest target (record f { resolved = target })

too_long : Fragment → Fragment
too_long f = record f {
  state = not_regular;
  message = codes "the symlink chain is too long to follow, which is a loop or an attempt at one";
}

irregular : Fragment → Fragment
irregular f = record f {
  state = not_regular;
  message = codes "the path is neither a regular file nor a link to one";
}

-- The loop over the links, with the number of links that may still be followed.
follow : System → ℕ → Str → Fragment → Followed
unfolding refused follow_link too_long irregular
follow s zero target f = elim (s.stat target) [
  | refuse e ↦ stopped (refused e f)
  | answer fi ↦
      if not fi.is_symlink
      then if fi.is_regular then reached target f else stopped (irregular f)
      else stopped (too_long f)
]
follow s (suc hops) target f = elim (s.stat target) [
  | refuse e ↦ stopped (refused e f)
  | answer fi ↦
      if not fi.is_symlink
      then if fi.is_regular then reached target f else stopped (irregular f)
      else elim (s.read_link target) [
        | refuse e ↦ stopped (refused e f)
        | answer dest ↦ follow_link (follow s hops) f (resolve_link target dest)
      ]
]

-- The bytes of the file that was reached.
read_target : System → Str → Fragment → Fragment × Str
unfolding refused
read_target s target f = elim (s.read_opaque target max_read) [
  | refuse e ↦ (refused e f, [])
  | answer res ↦
      if res.truncated
      then (
        record f {
          digest = res.sha256;
          state = truncated;
          message =
              codes "the file exceeded the read cap, so directives past the cut were not read";
        },
        res.bytes,
      )
      else elim (not_text res.bytes) [
        | some why ↦ (record f { digest = res.sha256; state = error; message = why }, [])
        | none ↦ (record f { digest = res.sha256; state = present }, res.bytes)
      ]
]

read_followed : System → Followed → Fragment × Str
unfolding read_target
read_followed s (stopped f) = (f, [])
read_followed s (reached target f) = read_target s target f

-- `readFragment`. A fragment has no state until one is set: `blank_fragment` has `error`, which every
-- path replaces.
unfoldable pub read_fragment : System → Str → FragmentKind → Fragment × Str
unfolding follow read_followed
read_fragment s p kind = read_followed s (follow s max_link_hops p (blank_fragment p kind))
