-- ===== src/Walker/Closed.antt =====
-- The loop of `walkRoot` of internal/collect/walker/walker.go leaves nothing out, unless it marks the
-- facts: what a closed set of directories shows.
use plumbline.Base.{
  str_ltb, ◌≡◌, refl, sym, ap, ◌∙◌, inl, inr, true, false, List, [], ◌∷◌, ◌++◌, arith,
  if◌then◌else◌, if_cases, All,
}
use mathlib.Core.List.{Memᴰ}
use mathlib.Core.Path.{subst}
use plumbline.Base.Sorting.{All-imp}
use plumbline.Host.{FileInfo, DirResult, Answer, answer, refuse, System}
use plumbline.Walker.Mounts.{read_mount_table}
use plumbline.Walker.State.{Config, Clock, DevIno, identified, dev_ino, WalkState}
use plumbline.Walker.Traverse.{Frame, visited_before, sorted_entries}
use plumbline.Walker.Scan.{Inside, infos, Going}
use plumbline.Walker.Entries.{infos-left, infos-right}
use plumbline.Walker.Rounds.{Pushed, unread, read, Rounded, skipped, listed}
use plumbline.Walker.Reach.{crosses, Listed, top, sub, Found, itself, entry}
use plumbline.Walker.Sound.{All_of, All-at, pushed-Open, settle}
use plumbline.Walker.Members.{Memᴰ-sort_by, left_of, right_of}
use plumbline.Walker.Covered.{
  Within, nothing_asked, Apart, Covered, Done, Identity, Closed, skip-Covered, list-Covered,
  Done-imp, known,
}

answer-injective : (l l' : DirResult) → answer l ≡ answer l' → l ≡ l'
answer-injective l l' e = ap (λ (a : Answer DirResult). elim a [ answer x ↦ x | refuse h ↦ l ]) e

module _ (cfg : Config) (clock : Clock) (s : System) (root : FileInfo) where
  skipped-Closed :
      (apart : Apart cfg clock s root) (f : Frame) (stack : List Frame) (st : WalkState)
      (pushed : List Frame) (st' : WalkState) (c : Closed cfg clock s root (f ∷ stack) st)
      → visited_before f.info st ≡ true
      → pushed ≡ stack
      → st'.visited ≡ st.visited
      → Going cfg (crosses cfg s) (read_mount_table s) c.loop.offers c.loop.cut st' st'
      → Closed cfg clock s root pushed st'
  skipped-Closed apart f stack st pushed st' c v p w g =
      let seen =
        known cfg clock s root apart c.entered f.info st c.listed c.loop.frames.0 c.ids v in
      let rest : Closed cfg clock s root stack st' = record {
        entered = c.entered;
        loop = record {
          offers = c.loop.offers;
          cut = c.loop.cut;
          from = c.loop.from;
          frames = c.loop.frames.1;
          state = g;
        };
        listed = c.listed;
        ids = subst (All (Identity cfg clock s root c.entered)) (sym w) c.ids;
        done = λ n.
            All-imp _ _ c.entered
              (λ d h.
                Done-imp cfg clock s root c.loop.offers c.loop.offers c.entered c.entered
                  (f ∷ stack) stack d (λ x m. m)
                  (λ e k. skip-Covered cfg clock s root c.entered f stack e seen k) h)
              (c.done n);
        top = λ n.
            let t = c.top n in (t.0, skip-Covered cfg clock s root c.entered f stack root seen t.1);
      } in
      subst (λ l. Closed cfg clock s root l st') (sym p) rest

  -- The identities of the directories entered, with one more.
  entered-Identity :
      (entered : List FileInfo) (fi : FileInfo) (old new : List DevIno)
      → new ≡ (if identified fi then dev_ino fi ∷ old else old)
      → All (Identity cfg clock s root entered) old
      → All (Identity cfg clock s root (fi ∷ entered)) new
  entered-Identity entered fi old new e h =
      let more : All (Identity cfg clock s root (fi ∷ entered)) old =
        All-imp _ _ old (λ id x. (x.0, Memᴰ.tail x.1, x.2, x.3)) h in
      subst (All (Identity cfg clock s root (fi ∷ entered))) (sym e) (
        if_cases (All (Identity cfg clock s root (fi ∷ entered))) (identified fi)
          (λ i. ((fi, Memᴰ.head refl, i, refl), more)) (λ i. more))

  listed-Closed :
      (f : Frame) (stack : List Frame) (st mid : WalkState) (pushed : List Frame) (st' : WalkState)
      (c : Closed cfg clock s root (f ∷ stack) st)
      → mid.visited ≡ (if identified f.info then dev_ino f.info ∷ st.visited else st.visited)
      → Pushed cfg
          (crosses cfg s)
          (read_mount_table s)
          root.dev
          c.loop.offers
          c.loop.cut
          mid
          stack
          (s.read_dir f.info.path cfg.max_dir_entries)
          pushed
          st'
      → Closed cfg clock s root pushed st'
  listed-Closed f stack st mid pushed st' c v (unread p g) =
      let next =
        pushed-Open cfg clock s (Within cfg clock s root) root (λ fi f. tt) c.loop.offers c.loop.cut
          f.info mid stack pushed st' c.loop.from c.loop.frames.0 c.loop.frames.1 (unread p g) in
      record {
        entered = f.info ∷ c.entered;
        loop = record {
          offers = c.loop.offers;
          cut = true;
          from = c.loop.from;
          frames = next.frames;
          state = settle cfg clock s (Within cfg clock s root) root (λ fi f. tt) g;
        };
        listed = (c.loop.frames.0, c.listed);
        ids = entered-Identity c.entered f.info st.visited st'.visited (g.visited ∙ v) c.ids;
        done = λ n. absurd (ground (arith, n));
        top = λ n. absurd (ground (arith, n));
      }
  listed-Closed f stack st mid pushed st' c v (read l e children p cut_now w sc) =
      let next =
        pushed-Open cfg clock s (Within cfg clock s root) root (λ fi f. tt) c.loop.offers c.loop.cut
          f.info mid stack pushed st' c.loop.from c.loop.frames.0 c.loop.frames.1
          (read l e children p cut_now w sc) in
      let shown = sorted_entries l.entries in
      let offers = c.loop.offers ++ shown in
      let deeper : (x : FileInfo) → Memᴰ x (infos stack) → Memᴰ x (infos pushed) =
        λ x m. subst (λ l. Memᴰ x (infos l)) (sym p) (infos-right x children stack m) in
      let covers : (x : FileInfo)
          → Covered cfg clock s root c.entered (f ∷ stack) x
          → Covered cfg clock s root (f.info ∷ c.entered) pushed x =
        λ x k. list-Covered cfg clock s root c.entered f stack pushed x deeper k in
      let before : sc.cut_now ≡ false → c.loop.cut ≡ false = λ n. (w (sc.whole n).0).0 in
      record {
        entered = f.info ∷ c.entered;
        loop = record {
          offers = offers;
          cut = sc.cut_now;
          from = nothing_asked cfg clock s root offers;
          frames = next.frames;
          state = settle cfg clock s (Within cfg clock s root) root (λ fi f. tt) sc.state;
        };
        listed = (c.loop.frames.0, c.listed);
        ids = entered-Identity c.entered f.info st.visited st'.visited (sc.state.visited ∙ v) c.ids;
        done = λ n. (
          (
            l,
            e,
            All_of _ l.entries (λ x m.
                let shows =
                  Memᴰ-sort_by (λ (a : FileInfo) b. str_ltb a.path b.path) x l.entries m in
                (
                  right_of x c.loop.offers shown shows,
                  λ i. inl (
                      subst (λ l. Memᴰ x (infos l)) (sym p)
                        (infos-left x children stack (All-at _ shown x (sc.whole n).1 shows i))),
                )),
          ),
          All-imp _ _ c.entered
              (λ d h.
                Done-imp cfg clock s root c.loop.offers offers c.entered (f.info ∷ c.entered)
                  (f ∷ stack) pushed d (λ x m. left_of x c.loop.offers shown m) covers h)
              (c.done (before n)),
        );
        top = λ n.
            let t = c.top (before n) in (left_of root c.loop.offers shown t.0, covers root t.1);
      }

  pub rounded-Closed :
      (apart : Apart cfg clock s root) (f : Frame) (stack : List Frame) (st : WalkState)
      (pushed : List Frame) (st' : WalkState) (c : Closed cfg clock s root (f ∷ stack) st)
      → Rounded cfg
          (crosses cfg s)
          (read_mount_table s)
          (Within cfg clock s root)
          root.dev
          clock
          s
          c.loop.offers
          c.loop.cut
          f
          stack
          st
          pushed
          st'
      → Closed cfg clock s root pushed st'
  rounded-Closed apart f stack st pushed st' c (skipped v p w g) =
      skipped-Closed apart f stack st pushed st' c v p w g
  rounded-Closed apart f stack st pushed st' c (listed mid v p) =
      listed-Closed f stack st mid pushed st' c v p

  -- What holds of the entries of a directory that was entered under this path.
  entries_of_entered :
      (offers entered : List FileInfo)
      → All (Done cfg clock s root offers entered []) entered
      → (d d' : FileInfo) → Memᴰ d' entered
      → d'.path ≡ d.path
      → (l : DirResult) → s.read_dir d.path cfg.max_dir_entries ≡ answer l
      → (fi : FileInfo) → Memᴰ fi l.entries
      → Memᴰ fi offers
        × (Inside (crosses cfg s) (read_mount_table s) root.dev fi
            → Covered cfg clock s root entered [] fi)
  entries_of_entered offers entered done d d' m p l e fi k =
      let (l', e', a) = All-at (Done cfg clock s root offers entered []) entered d' done m in
      let same : l ≡ l' =
        answer-injective l l' (sym e ∙ ap (λ q. s.read_dir q cfg.max_dir_entries) (sym p) ∙ e') in
      All-at _ l'.entries fi a (subst (λ (r : DirResult). Memᴰ fi r.entries) same k)

  -- Where nothing is left on the stack, every directory to be listed was entered.
  all_entered :
      (offers entered : List FileInfo)
      → All (Done cfg clock s root offers entered []) entered
      → Covered cfg clock s root entered [] root
      → (d : FileInfo) → Listed cfg s root d
      → (d' : FileInfo) × Memᴰ d' entered × (d'.path ≡ d.path)
  all_entered offers entered done (inl m) d (top e i) = elim m [ ]
  all_entered offers entered done (inr (d', m, p)) d (top e i) =
      (d', m, p ∙ ap (λ (x : FileInfo). x.path) (sym e))
  all_entered offers entered done r d (sub {d = above} h e m i) =
      let (d', k, p) = all_entered offers entered done r above h in
      elim ((entries_of_entered offers entered done above d' k p _ e d m).1 i) [
        | inl k ↦ elim k [ ]
        | inr k ↦ k
      ]

  -- With an empty stack and no mark, everything that is to be seen was offered.
  pub closed-Found :
      (st : WalkState)
      → (c : Closed cfg clock s root [] st) → c.loop.cut ≡ false
      → (fi : FileInfo) → Found cfg s root fi
      → Memᴰ fi c.loop.offers
  closed-Found st c n fi (itself e) = subst (λ x. Memᴰ x c.loop.offers) (sym e) (c.top n).0
  closed-Found st c n fi (entry {d = above} h e m) =
      let (d', k, p) = all_entered c.loop.offers c.entered (c.done n) (c.top n).1 above h in
      (entries_of_entered c.loop.offers c.entered (c.done n) above d' k p _ e fi m).0
