-- ===== src/Walker/Covered.antt =====
-- The directories that a walk of internal/collect/walker/walker.go has entered or is still to enter.
use plumbline.Base.{
  any, ◌≡◌, refl, sym, ap, ◌∙◌, ◌⊎◌, inl, inr, true, false, List, [], ◌∷◌, arith, Bool-cases, All,
}
use mathlib.Core.List.{Memᴰ}
use plumbline.Base.Sorting.{All-imp}
use plumbline.Host.{FileInfo, DirResult, answer, System}
use plumbline.Walker.Mounts.{read_mount_table}
use plumbline.Walker.State.{Config, Clock, DevIno, same_inode, identified, dev_ino, WalkState}
use plumbline.Walker.Traverse.{Frame, visited_before}
use plumbline.Walker.Scan.{Inside, infos}
use plumbline.Walker.Reach.{crosses, Listed}
use plumbline.Walker.Sound.{All-at, Open}

same_inode-eq : (a b : DevIno) → same_inode a b ≡ true → a ≡ b
unfolding same_inode
same_inode-eq a b h =
    let e : a.dev ≡ b.dev = ground (arith, h) in
    let f : a.ino ≡ b.ino = ground (arith, h) in λ i. record { dev = e i; ino = f i }

module _ (cfg : Config) (clock : Clock) (s : System) (root : FileInfo) where
  -- No two of the directories that are to be listed are one inode under two paths, as a bind mount
  -- makes them.
  abbrev pub Apart : Type 0
  Apart =
      (a b : FileInfo)
      → Listed cfg s root a
      → Listed cfg s root b
      → identified a ≡ true
      → dev_ino a ≡ dev_ino b
      → a.path ≡ b.path

  abbrev pub Within : FileInfo → Type 0
  Within fi = Unit {0}

  pub nothing_asked : (l : List FileInfo) → All Within l
  nothing_asked [] = tt
  nothing_asked (x ∷ xs) = (tt, nothing_asked xs)

  -- A directory that is still to be listed, or was listed.
  abbrev pub Covered : List FileInfo → List Frame → FileInfo → Type 0
  Covered entered stack e =
      Memᴰ e (infos stack) ⊎ ((d : FileInfo) × Memᴰ d entered × (d.path ≡ e.path))

  -- All entries of a directory were offered, and those to be listed are covered.
  abbrev pub Done : List FileInfo → List FileInfo → List Frame → FileInfo → Type 0
  Done offers entered stack d =
      (l : DirResult) × (s.read_dir d.path cfg.max_dir_entries ≡ answer l)
      × All
          (λ e.
            Memᴰ e offers
            × (Inside (crosses cfg s) (read_mount_table s) root.dev e → Covered entered stack e))
          l.entries

  abbrev pub Identity : List FileInfo → DevIno → Type 0
  Identity entered id = (d : FileInfo) × Memᴰ d entered × (identified d ≡ true) × (dev_ino d ≡ id)

  -- The loop of a walk that is not cut short: what was entered is done.
  pub record Closed (stack : List Frame) (st : WalkState) : Type 0 where
    pub entered : List FileInfo
    pub loop : Open cfg clock s Within root (λ fi f. tt) stack st
    pub listed : All (Listed cfg s root) entered
    pub ids : All (Identity entered) st.visited
    pub done : loop.cut ≡ false → All (Done loop.offers entered stack) entered
    pub top : loop.cut ≡ false → Memᴰ root loop.offers × Covered entered stack root

  -- The directory on top of the stack is one that was entered already.
  pub skip-Covered :
      (entered : List FileInfo) (f : Frame) (stack : List Frame) (e : FileInfo)
      → (d : FileInfo) × Memᴰ d entered × (d.path ≡ f.info.path)
      → Covered entered (f ∷ stack) e
      → Covered entered stack e
  skip-Covered entered f stack e w (inl (Memᴰ.head p)) =
      inr (w.0, w.1, w.2 ∙ ap (λ (x : FileInfo). x.path) (sym p))
  skip-Covered entered f stack e w (inl (Memᴰ.tail m)) = inl m
  skip-Covered entered f stack e w (inr c) = inr c

  -- It is entered now, and others are pushed.
  pub list-Covered :
      (entered : List FileInfo) (f : Frame) (stack pushed : List Frame) (e : FileInfo)
      → ((x : FileInfo) → Memᴰ x (infos stack) → Memᴰ x (infos pushed))
      → Covered entered (f ∷ stack) e
      → Covered (f.info ∷ entered) pushed e
  list-Covered entered f stack pushed e k (inl (Memᴰ.head p)) =
      inr (f.info, Memᴰ.head refl, ap (λ (x : FileInfo). x.path) (sym p))
  list-Covered entered f stack pushed e k (inl (Memᴰ.tail m)) = inl (k e m)
  list-Covered entered f stack pushed e k (inr (d, m, p)) = inr (d, Memᴰ.tail m, p)

  pub Done-imp :
      (offers offers' entered entered' : List FileInfo) (stack stack' : List Frame) (d : FileInfo)
      → ((x : FileInfo) → Memᴰ x offers → Memᴰ x offers')
      → ((e : FileInfo) → Covered entered stack e → Covered entered' stack' e)
      → Done offers entered stack d
      → Done offers' entered' stack' d
  Done-imp offers offers' entered entered' stack stack' d h k (l, e, a) =
      (l, e, All-imp _ _ l.entries (λ x p. (h x p.0, λ i. k x (p.1 i))) a)

  pub look :
      (apart : Apart) (entered : List FileInfo) (fi : FileInfo)
      → All (Listed cfg s root) entered
      → Listed cfg s root fi
      → (ids : List DevIno) → All (Identity entered) ids
      → any (same_inode (dev_ino fi)) ids ≡ true
      → (d : FileInfo) × Memᴰ d entered × (d.path ≡ fi.path)
  unfolding any
  look apart entered fi hs h [] ids v = absurd (ground (arith, v))
  look apart entered fi hs h (id ∷ l) ids v = elim (Bool-cases (same_inode (dev_ino fi) id)) [
    | inl e ↦
        let (d, m, i, q) = ids.0 in
        (
          d,
          m,
          apart d fi (All-at (Listed cfg s root) entered d hs m) h i
              (q ∙ sym (same_inode-eq (dev_ino fi) id e)),
        )
    | inr e ↦ look apart entered fi hs h l ids.1 (ground (arith, v, e))
  ]

  -- A directory that was visited before has the path of one that was entered.
  pub known :
      (apart : Apart) (entered : List FileInfo) (fi : FileInfo) (st : WalkState)
      → All (Listed cfg s root) entered
      → Listed cfg s root fi
      → All (Identity entered) st.visited
      → visited_before fi st ≡ true
      → (d : FileInfo) × Memᴰ d entered × (d.path ≡ fi.path)
  unfolding visited_before
  known apart entered fi st hs h ids v =
      look apart entered fi hs h st.visited ids (ground (arith, v))
