-- ===== src/Downloads/Keeping.antt =====
-- What exists on the disk stays there during a download, however the download ends, unless it lies
-- below a path that the download moves away or removes.
use render_studio_kit.Shared.{
  ℕ, zero, suc, Bool, true, false, ◌≡◌, refl, Option, if◌then◌else◌, arith,
}
use render_studio_kit.Shared.Texts.{codes}
use render_studio_kit.Downloads.Host.{
  Host, World, Step, Outcome, done, thrown, terminated, undefined, out_of_fuel, ask, return,
  on_disk, on_network,
}
use render_studio_kit.Downloads.Uuid.{generate_uuid}
use render_studio_kit.Downloads.FileUtils.{
  ensure_directory, get_render_studio_path, free_path, temp_directory, leave, unwound, scope,
  with_temp,
}
use render_studio_kit.Downloads.Documented.{Documented}
use render_studio_kit.Downloads.Steps.{
  Keeps, After, bind-Keeps, bind-Ensures, Ensures-Keeps, Keeps-Ensures, ask-Keeps, return-Keeps,
  if-Keeps,
}

module _ ⦃h : Host⦄ (laws : Documented) (q : h.FsPath) where
  open h use {
    FsPath, Disk, join, user_home, filename, parent_path, exists, create_directories, remove_all,
    rename, entries, Network, Endpoints, Stream, set_host_name, uri_parse,
  }
  open laws use {Under}

  abbrev pub There : World → Type 0
  There w = exists q w.disk ≡ true

  split_outcome :
      {A : Type 0} (b : Bool) (x y : Outcome A) (w v : World)
      → There w
      → There v
      → There ((if◌then◌else◌ {A = Outcome A × World} b (x, w) (y, v)).1)
  split_outcome true x y w v p r = p
  split_outcome false x y w v p r = r

  pub on_disk-Keeps :
      (f : Disk → Bool × Disk)
      → ((d : Disk) → exists q d ≡ true → exists q ((f d).1) ≡ true)
      → Keeps There (on_disk f)
  unfolding on_disk
  on_disk-Keeps f k w p = split_outcome _ _ _ _ _ (k w.disk p) (k w.disk p)

  pub on_network-Keeps :
      {A : Type 0} (f : Network → Option A × Network) → Keeps There (on_network f)
  unfolding on_network
  on_network-Keeps f w p = p

  pub ensure_directory-Keeps : (p : FsPath) → Keeps There (ensure_directory p)
  unfolding ensure_directory
  ensure_directory-Keeps p =
      bind-Keeps There (ask (exists p)) _ (ask-Keeps There (exists p)) (λ found.
        if-Keeps There found _ _ (return-Keeps There tt)
          (on_disk-Keeps (create_directories p) (λ d. laws.create_keeps p q d)))

  get_render_studio_path-Keeps : Keeps There get_render_studio_path
  unfolding get_render_studio_path
  get_render_studio_path-Keeps =
      bind-Keeps There _ _ (ensure_directory-Keeps (join user_home (codes "AMD RenderStudio")))
        (λ made. return-Keeps There (join user_home (codes "AMD RenderStudio")))

  generate_uuid-Keeps : Keeps There generate_uuid
  unfolding generate_uuid
  generate_uuid-Keeps w p = p

  -- The path that the constructor of TempDirectory chooses is free.
  abbrev pub IsFree : FsPath → World → Type 0
  IsFree path w = exists path w.disk ≡ false

  chosen :
      (fuel : ℕ) (path : FsPath) (taken : Bool) (w : World)
      → exists path w.disk ≡ taken
      → There w
      → ((v : World) → There v → After There IsFree (free_path fuel v))
      → After There IsFree ((if taken then free_path fuel else return path) w)
  chosen fuel path true w e p k = k w p
  chosen fuel path false w e p k = (p, e)

  free_path-Free : (fuel : ℕ) (w : World) → There w → After There IsFree (free_path fuel w)
  unfolding free_path
  free_path-Free zero w p = p
  free_path-Free (suc fuel) w p =
      bind-Ensures There _ IsFree _ _ (Keeps-Ensures There _ get_render_studio_path-Keeps)
        (λ root v p u.
          bind-Ensures There _ IsFree _ _ (Keeps-Ensures There _ generate_uuid-Keeps)
            (λ uuid v' p' u'.
              let path = join (join root (codes "Temp")) uuid in
              bind-Ensures There (λ taken x. exists path x.disk ≡ taken) IsFree (ask (exists path))
                _ (λ x r. (r, refl))
                (λ taken x r e. chosen fuel path taken x e r (free_path-Free fuel)) v' p')
            v p)
        w p

  pub temp_directory-Apart :
      (fuel : ℕ) (w : World)
      → There w
      → After There (λ path v. ¬ Under q path) (temp_directory fuel w)
  unfolding temp_directory
  temp_directory-Apart fuel =
      bind-Ensures There IsFree _ _ _ (free_path-Free fuel) (λ path v p free.
        bind-Ensures There _ _ _ _
          (Keeps-Ensures There (on_disk (create_directories path))
            (on_disk-Keeps (create_directories path) (λ d. laws.create_keeps path q d)))
          (λ made v' p' u. (p', λ under. grind (arith, laws.parents q path v.disk under p, free))) v
          p)

  leave-Keeps :
      {A : Type 0} (path : FsPath) (o : Outcome A) → ¬ Under q path → Keeps There (leave path o)
  unfolding leave
  leave-Keeps path o apart w p =
      split_outcome (exists path w.disk) _ _ _ _ (laws.remove_keeps path q w.disk apart p) p

  unwound-Keeps :
      {A : Type 0} (path : FsPath) (r : Outcome A × World)
      → ¬ Under q path
      → There r.1
      → There ((unwound path r).1)
  unwound-Keeps path (done a, w) apart p = leave-Keeps path (done a) apart w p
  unwound-Keeps path (thrown, w) apart p = leave-Keeps path thrown apart w p
  unwound-Keeps path (terminated, w) apart p = p
  unwound-Keeps path (undefined, w) apart p = p
  unwound-Keeps path (out_of_fuel, w) apart p = p

  scope-Keeps :
      {A : Type 0} (path : FsPath) (body : Step A)
      → ¬ Under q path
      → Keeps There body
      → Keeps There (scope path body)
  unfolding scope
  scope-Keeps path body apart k w p = unwound-Keeps path (body w) apart (k w p)

  -- The temporary directory is a new one, so nothing that exists lies in it.
  pub with_temp-Keeps :
      {A : Type 0} (fuel : ℕ) (body : FsPath → Step A)
      → ((path : FsPath) → ¬ Under q path → Keeps There (body path))
      → Keeps There (with_temp fuel body)
  unfolding with_temp
  with_temp-Keeps fuel body k = Ensures-Keeps There _ _ (
      bind-Ensures There (λ path v. ¬ Under q path) (λ a v. Unit {0}) (temp_directory fuel)
        (λ path. scope path (body path)) (temp_directory-Apart fuel)
        (λ path v p apart.
          Keeps-Ensures There (scope path (body path))
            (scope-Keeps path (body path) apart (k path apart)) v p))
