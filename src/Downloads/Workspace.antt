-- ===== src/Downloads/Workspace.antt =====
-- The default workspace directory: the marker that tells whether the database of the synchronisation
-- belongs to it.
use render_studio_kit.Shared.{
  Bool, true, false, ◌≡◌, refl, sym, ◌∙◌, ap, if◌then◌else◌, subst, arith,
}
use render_studio_kit.Shared.Texts.{codes}
use render_studio_kit.Downloads.Host.{
  Host, World, Step, Outcome, done, thrown, ask, return, on_disk, ◌>>=◌,
}
use render_studio_kit.Downloads.FileUtils.{
  ensure_directory, get_render_studio_path, get_default_workspace_path,
}
use render_studio_kit.Downloads.Documented.{Documented, IsName}
use render_studio_kit.Downloads.Steps.{After, Keeps, Ensures, bind-Ensures, Keeps-Ensures}
use render_studio_kit.Downloads.Temporary.{render_studio}

workspace-IsName : IsName (codes "Workspace")
workspace-IsName = record {
  no_slash = ground arith;
  no_backslash = ground arith;
  no_drive = ground arith;
  no_parent = ground arith;
}

marker-IsName : IsName (codes ".stfolder")
marker-IsName = record {
  no_slash = ground arith;
  no_backslash = ground arith;
  no_drive = ground arith;
  no_parent = ground arith;
}

module _ ⦃h : Host⦄ where
  open h use {FsPath, Disk, join, exists, create_directories, remove_all}

  abbrev pub marker : FsPath
  marker = join (join render_studio (codes "Workspace")) (codes ".stfolder")

  abbrev Any : World → Type 0
  Any w = Unit {0}

  trivial-Keeps : {A : Type 0} (m : Step A) → Keeps Any m
  trivial-Keeps m w p = tt

  root-Ensures : Ensures Any get_render_studio_path (λ p w. p ≡ render_studio)
  unfolding get_render_studio_path
  root-Ensures =
      bind-Ensures Any (λ u w. Unit {0}) (λ p w. p ≡ render_studio) (ensure_directory render_studio)
        _
        (Keeps-Ensures Any (ensure_directory render_studio)
          (trivial-Keeps (ensure_directory render_studio)))
        (λ u w p q. (tt, refl))

  made_if :
      (b : Bool) (p : FsPath) (w : World)
      → (b ≡ true → exists p w.disk ≡ true)
      → After Any
          (λ u v. exists p v.disk ≡ true)
          (if◌then◌else◌ {A = Outcome Unit × World} b (done tt, w) (thrown, w))
  made_if true p w e = (tt, e refl)
  made_if false p w e = tt

  create-Ensures :
      (laws : Documented) (p : FsPath)
      → Ensures Any (on_disk (create_directories p)) (λ u v. exists p v.disk ≡ true)
  unfolding on_disk
  create-Ensures laws p w any =
      made_if ((create_directories p w.disk).0) p
        (record w { disk = (create_directories p w.disk).1 }) (laws.created p w.disk)

  -- What GetDefaultWorkspacePath does when it knows the three roots
  unfoldable marked : FsPath → FsPath → FsPath → Step FsPath
  marked a b c = do
    found ← ask (exists (join (join c (codes "Workspace")) (codes ".stfolder")))
    if found then return (join a (codes "Workspace")) else (do
      removed ← on_disk (remove_all (join b (codes "Syncthing")))
      made ← on_disk (create_directories (join (join c (codes "Workspace")) (codes ".stfolder")))
      return (join a (codes "Workspace")))

  abbrev pub IsMarked : FsPath → World → Type 0
  IsMarked p w = (p ≡ join render_studio (codes "Workspace")) × (exists marker w.disk ≡ true)

  found_or_made :
      (laws : Documented) (found : Bool) (w : World)
      → exists marker w.disk ≡ found
      → After Any IsMarked (
          (if found then return (join render_studio (codes "Workspace")) else (do
            removed ← on_disk (remove_all (join render_studio (codes "Syncthing")))
            made ← on_disk (create_directories marker)
            return (join render_studio (codes "Workspace"))))
            w)
  found_or_made laws true w e = (tt, (refl, e))
  found_or_made laws false w e =
      let removing = on_disk (remove_all (join render_studio (codes "Syncthing"))) in
      bind-Ensures Any (λ u v. Unit {0}) IsMarked removing _
        (Keeps-Ensures Any removing (trivial-Keeps removing))
        (λ u v p q.
          bind-Ensures Any (λ u x. exists marker x.disk ≡ true) IsMarked
            (on_disk (create_directories marker)) _ (create-Ensures laws marker)
            (λ made x r there. (tt, (refl, there))) v p)
        w tt

  marked-Ensures :
      (laws : Documented) (a b c : FsPath)
      → a ≡ render_studio
      → b ≡ render_studio
      → c ≡ render_studio
      → Ensures Any (marked a b c) IsMarked
  unfolding marked
  marked-Ensures laws a b c ea eb ec w any = rw ea (
      rw eb (
        rw ec (
          bind-Ensures Any (λ found v. exists marker v.disk ≡ found) IsMarked (ask (exists marker))
            _ (λ v p. (p, refl)) (λ found v p e. found_or_made laws found v e) w tt)))

  default-Ensures : (laws : Documented) → Ensures Any get_default_workspace_path IsMarked
  unfolding get_default_workspace_path marked
  default-Ensures laws = bind-Ensures Any _ IsMarked _ _ root-Ensures (λ a w p ea.
      bind-Ensures Any _ IsMarked _ _ root-Ensures
        (λ b v q eb.
          bind-Ensures Any _ IsMarked _ _ root-Ensures
            (λ c x r ec. marked-Ensures laws a b c ea eb ec x tt) v tt)
        w tt)

  root_there :
      (w : World)
      → exists render_studio w.disk ≡ true
      → get_render_studio_path w ≡ (done render_studio, w)
  unfolding get_render_studio_path ensure_directory ◌>>=◌
  root_there w there = rw there refl

  settled :
      (w : World)
      → exists render_studio w.disk ≡ true
      → exists marker w.disk ≡ true
      → get_default_workspace_path w ≡ (done (join render_studio (codes "Workspace")), w)
  unfolding get_default_workspace_path ◌>>=◌
  settled w there e = let r = root_there w there in rw r (rw r (rw r (rw e refl)))

  marker_below : (laws : Documented) → laws.Under marker render_studio
  marker_below laws =
      laws.under_trans marker (join render_studio (codes "Workspace")) render_studio
        (laws.join_under _ _ marker-IsName) (laws.join_under _ _ workspace-IsName)

  -- When GetDefaultWorkspacePath returns, it returns the directory Workspace, the marker is there, and
  -- the next call returns the same and removes nothing.
  pub get_default_workspace_path-settled :
      (laws : Documented) (w v : World) (path : FsPath)
      → get_default_workspace_path w ≡ (done path, v)
      → (path ≡ join render_studio (codes "Workspace"))
        × (exists marker v.disk ≡ true)
        × (get_default_workspace_path v ≡ (done path, v))
  get_default_workspace_path-settled laws w v path run =
      let (any, (same, there)) =
        subst (λ (r : Outcome FsPath × World). After Any IsMarked r) run
          (default-Ensures laws w tt) in
      (
        same,
        there,
        settled v (laws.parents marker render_studio v.disk (marker_below laws) there) there
            ∙ ap (λ p. (done p, v)) (sym same),
      )
