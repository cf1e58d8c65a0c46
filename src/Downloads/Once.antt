-- ===== src/Downloads/Once.antt =====
-- A place is downloaded once: what a later download of it does, whatever became of the first one.
use render_studio_kit.Shared.{ℕ, Bool, true, false, ◌≡◌, refl, sym, ◌∙◌, ap, is_nil, subst}
use render_studio_kit.Shared.Texts.{Text, codes}
use render_studio_kit.Downloads.Host.{Host, World, Step, Outcome, on_disk, ◌>>=◌}
use render_studio_kit.Downloads.FileUtils.{with_temp}
use render_studio_kit.Downloads.Packages.{Item, Light}
use render_studio_kit.Downloads.MaterialLibrary.{root_with, fetch_material, download_material}
use render_studio_kit.Downloads.LocalStorage.{fetch_light, download_light}
use render_studio_kit.Downloads.Documented.{Documented, IsName}
use render_studio_kit.Downloads.Keeping.{with_temp-Keeps}
use render_studio_kit.Downloads.Retries.{root_with-Keeps, fetch_material-Keeps, fetch_light-Keeps}

module _ ⦃h : Host⦄ where
  open h use {FsPath, Disk, exists, create_directories}

  -- A change of the disk that does not throw, and what follows
  pub on_disk-next :
      {A : Type 0} (f : Disk → Bool × Disk) (g : Unit → Step A) (w : World)
      → (f w.disk).0 ≡ true
      → (on_disk f >>= g) w ≡ g tt (record w { disk = (f w.disk).1 })
  unfolding on_disk ◌>>=◌
  on_disk-next f g w e = rw e refl

  -- What root_with answers, in the world as it was
  pub root_with-same : (ending : Text) (path : FsPath) (w : World) → (root_with ending path w).1 ≡ w
  root_with-same ending path w = root_with-Keeps (λ v. v ≡ w) ending path w refl

  found-material :
      (fuel : ℕ) (material : Item) (path : FsPath) (w : World)
      → exists path w.disk ≡ true
      → download_material fuel material path w ≡ root_with (codes ".mtlx") path w
  unfolding download_material ◌>>=◌
  found-material fuel material path w e = rw e refl

  new-material :
      (fuel : ℕ) (material : Item) (path : FsPath) (w : World)
      → exists path w.disk ≡ false
      → download_material fuel material path w
        ≡ (on_disk (create_directories path) >>= λ made.
              with_temp fuel (fetch_material fuel material path))
            w
  unfolding download_material ◌>>=◌
  new-material fuel material path w e = rw e refl

  -- The first download leaves the directory, however it ends.
  left-material :
      (laws : Documented) (fuel : ℕ) (material : Item) (path : FsPath) (w : World)
      → exists path w.disk ≡ false
      → (create_directories path w.disk).0 ≡ true
      → exists path ((download_material fuel material path w).1.disk) ≡ true
  left-material laws fuel material path w new made =
      let w' : World = record w { disk = (create_directories path w.disk).1 } in
      let e =
        new-material fuel material path w new
        ∙ on_disk-next (create_directories path)
            (λ u. with_temp fuel (fetch_material fuel material path)) w made in
      subst (λ (r : Outcome FsPath × World). exists path (r.1.disk) ≡ true) (sym e)
        (with_temp-Keeps laws path fuel (fetch_material fuel material path)
          (λ temp apart. fetch_material-Keeps laws path fuel material path temp apart) w'
          (laws.created path w.disk made))

  -- After a download of a material to a new place, which may have failed in any way once the
  -- directory was made, a later download to the same place changes nothing, reaches no server, and
  -- answers with the .mtlx file that lies there, or throws.
  pub download_material-once :
      (laws : Documented) (fuel fuel' : ℕ) (material material' : Item) (path : FsPath) (w v : World)
      → exists path w.disk ≡ false
      → (create_directories path w.disk).0 ≡ true
      → v.disk ≡ (download_material fuel material path w).1.disk
      → (download_material fuel' material' path v ≡ root_with (codes ".mtlx") path v)
        × ((download_material fuel' material' path v).1 ≡ v)
  download_material-once laws fuel fuel' material material' path w v new made same =
      let there : exists path v.disk ≡ true =
        ap (exists path) same ∙ left-material laws fuel material path w new made in
      let e = found-material fuel' material' path v there in
      (e, ap (λ (r : Outcome FsPath × World). r.1) e ∙ root_with-same (codes ".mtlx") path v)

  found-light :
      (fuel : ℕ) (light : Light) (path : FsPath) (url : Text) (w : World)
      → is_nil url ≡ false
      → exists path w.disk ≡ true
      → download_light fuel light path url w ≡ root_with (codes ".usda") path w
  unfolding download_light ◌>>=◌
  found-light fuel light path url w given e = rw given (rw e refl)

  new-light :
      (fuel : ℕ) (light : Light) (path : FsPath) (url : Text) (w : World)
      → is_nil url ≡ false
      → exists path w.disk ≡ false
      → download_light fuel light path url w
        ≡ (on_disk (create_directories path) >>= λ made.
              with_temp fuel (fetch_light fuel light path url))
            w
  unfolding download_light ◌>>=◌
  new-light fuel light path url w given e = rw given (rw e refl)

  left-light :
      (laws : Documented) (fuel : ℕ) (light : Light) (path : FsPath) (url : Text) (w : World)
      → IsName light.file
      → is_nil url ≡ false
      → exists path w.disk ≡ false
      → (create_directories path w.disk).0 ≡ true
      → exists path ((download_light fuel light path url w).1.disk) ≡ true
  left-light laws fuel light path url w named given new made =
      let w' : World = record w { disk = (create_directories path w.disk).1 } in
      let e =
        new-light fuel light path url w given new
        ∙ on_disk-next (create_directories path)
            (λ u. with_temp fuel (fetch_light fuel light path url)) w made in
      subst (λ (r : Outcome FsPath × World). exists path (r.1.disk) ≡ true) (sym e)
        (with_temp-Keeps laws path fuel (fetch_light fuel light path url)
          (λ temp apart. fetch_light-Keeps laws path fuel light path url temp named apart) w'
          (laws.created path w.disk made))

  -- The same of a light whose file has a plain name, with the .usda file.
  pub download_light-once :
      (laws : Documented) (fuel fuel' : ℕ) (light light' : Light) (path : FsPath) (url url' : Text)
      (w v : World)
      → IsName light.file
      → is_nil url ≡ false
      → is_nil url' ≡ false
      → exists path w.disk ≡ false
      → (create_directories path w.disk).0 ≡ true
      → v.disk ≡ (download_light fuel light path url w).1.disk
      → (download_light fuel' light' path url' v ≡ root_with (codes ".usda") path v)
        × ((download_light fuel' light' path url' v).1 ≡ v)
  download_light-once laws fuel fuel' light light' path url url' w v named given given' new made
        same =
      let there : exists path v.disk ≡ true =
        ap (exists path) same ∙ left-light laws fuel light path url w named given new made in
      let e = found-light fuel' light' path url' v given' there in
      (e, ap (λ (r : Outcome FsPath × World). r.1) e ∙ root_with-same (codes ".usda") path v)
