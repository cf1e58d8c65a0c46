-- ===== src/Downloads/Retries.antt =====
-- A download is made once: whatever became of it, the directory that it was to fill exists afterwards,
-- and the next download of the same place only looks for the file there.
use render_studio_kit.Shared.{ℕ, sym, Option, none, some, ◌++◌, subst, arith}
use render_studio_kit.Shared.Texts.{Text, codes}
use render_studio_kit.Downloads.Host.{Host, World, return}
use render_studio_kit.Downloads.RestClient.{no_parameters}
use render_studio_kit.Downloads.Packages.{Item, Light}
use render_studio_kit.Downloads.MaterialLibrary.{root_with, first_with, fetch_material}
use render_studio_kit.Downloads.LocalStorage.{fetch_file, fetch_light}
use render_studio_kit.Downloads.Documented.{Documented, IsName}
use render_studio_kit.Downloads.Steps.{Keeps, bind-Keeps, ask-Keeps, return-Keeps, listed-Keeps}
use render_studio_kit.Downloads.Keeping.{There, on_disk-Keeps}
use render_studio_kit.Downloads.Fetching.{client_download-Keeps, extract-Keeps, move-Keeps}

archive-IsName : IsName (codes "Package.zip")
archive-IsName = record {
  no_slash = ground arith;
  no_backslash = ground arith;
  no_drive = ground arith;
  no_parent = ground arith;
}

folder-IsName : IsName (codes "Package")
folder-IsName = record {
  no_slash = ground arith;
  no_backslash = ground arith;
  no_drive = ground arith;
  no_parent = ground arith;
}

module _ ⦃h : Host⦄ where
  open h use {FsPath, join, filename, exists, create_directories, recursive_entries, rename}

  -- Looking for the file changes nothing.
  pub root_with-Keeps :
      (P : World → Type 0) (ending : Text) (path : FsPath) → Keeps P (root_with ending path)
  unfolding root_with
  root_with-Keeps P ending path = bind-Keeps P _ _ (ask-Keeps P (recursive_entries path)) (λ found.
      bind-Keeps P _ _ (listed-Keeps P found)
        (λ ps. bind-Keeps P _ _ (ask-Keeps P (first_with ending ps)) (λ root. listed-Keeps P root)))

  module _ (laws : Documented) (q : FsPath) where
    open laws use {Under}

    named : (p : FsPath) (name : Text) → IsName name → IsName (filename (join p name))
    named p name n = subst IsName (sym (laws.filename_join p name n)) n

    apart_in : (p : FsPath) (name : Text) → IsName name → ¬ Under q p → ¬ Under q (join p name)
    apart_in p name n apart u =
        apart (laws.under_trans q (join p name) p u (laws.join_under p name n))

    pub fetch_material-Keeps :
        (fuel : ℕ) (material : Item) (path temp : FsPath)
        → ¬ Under q temp
        → Keeps (There laws q) (fetch_material fuel material path temp)
    unfolding fetch_material
    fetch_material-Keeps fuel material path temp apart =
        let P = There laws q in
        let archive = join temp (codes "Package.zip") in
        let folder = join temp (codes "Package") in
        bind-Keeps P _ _
          (client_download-Keeps laws q fuel no_parameters material.file_url archive
            (named temp (codes "Package.zip") archive-IsName))
          (λ downloaded. bind-Keeps P _ _ (extract-Keeps laws q archive folder) (λ extracted.
            bind-Keeps P _ _
              (move-Keeps laws q folder path (apart_in temp (codes "Package") folder-IsName apart))
              (λ moved. root_with-Keeps P (codes ".mtlx") path)))

    fetch_file-Keeps :
        (fuel : ℕ) (request : Text) (temp : FsPath) (name : Text) (target : FsPath)
        → IsName name
        → ¬ Under q temp
        → Keeps (There laws q) (fetch_file fuel request (join temp name) target)
    unfolding fetch_file
    fetch_file-Keeps fuel request temp name target n apart =
        bind-Keeps (There laws q) _ _
          (client_download-Keeps laws q fuel no_parameters request (join temp name)
            (named temp name n))
          (λ downloaded.
            on_disk-Keeps laws q (rename (join temp name) target)
              (λ d. laws.rename_keeps (join temp name) target q d (apart_in temp name n apart)))

    textured-Keeps :
        (fuel : ℕ) (base : Text) (texture : Option Text) (temp : FsPath) (name : Text)
        (path : FsPath)
        → IsName name
        → ¬ Under q temp
        → Keeps (There laws q) (elim texture [
          | none ↦ return tt
          | some t ↦ fetch_file fuel (base ++ codes "/texture") (join temp name) (join path t)
        ])
    textured-Keeps fuel base none temp name path n apart = return-Keeps (There laws q) tt
    textured-Keeps fuel base (some t) temp name path n apart =
        fetch_file-Keeps fuel (base ++ codes "/texture") temp name (join path t) n apart

    pub fetch_light-Keeps :
        (fuel : ℕ) (light : Light) (path : FsPath) (storage_url : Text) (temp : FsPath)
        → IsName light.file
        → ¬ Under q temp
        → Keeps (There laws q) (fetch_light fuel light path storage_url temp)
    unfolding fetch_light
    fetch_light-Keeps fuel light path storage_url temp n apart =
        let P = There laws q in
        let base = storage_url ++ (codes "/api/lights/" ++ light.id) in
        bind-Keeps P _ _
          (fetch_file-Keeps fuel (base ++ codes "/file") temp light.file (join path light.file) n
            apart)
          (λ fetched.
            bind-Keeps P _ _ (textured-Keeps fuel base light.texture temp light.file path n apart)
              (λ textured. root_with-Keeps P (codes ".usda") path))
