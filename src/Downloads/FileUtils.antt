-- ===== src/Downloads/FileUtils.antt =====
-- Sources/Utils/FileUtils.cpp: the places of the program's files, temporary directories, archives, and
-- moving the files of a directory. The environment of the Windows build is left out of the path.
use render_studio_kit.Shared.{ℕ, zero, suc, List, [], ◌∷◌, Option, none, some, if◌then◌else◌}
use render_studio_kit.Shared.Texts.{codes}
use render_studio_kit.Downloads.Host.{
  Host, World, Step, Outcome, done, thrown, terminated, undefined, out_of_fuel, return, throw,
  exhausted, ask, on_disk, ◌>>=◌,
}
use render_studio_kit.Downloads.Uuid.{generate_uuid}

module _ ⦃h : Host⦄ where
  open h use {
    FsPath, join, filename, user_home, exists, create_directories, remove_all, rename, entries,
    zip_extract,
  }

  -- if (!std::filesystem::exists(path)) std::filesystem::create_directories(path);
  unfoldable pub ensure_directory : FsPath → Step Unit
  ensure_directory path = do
    found ← ask (exists path)
    if found then return tt else on_disk (create_directories path)

  unfoldable pub get_render_studio_path : Step FsPath
  get_render_studio_path = do
    let path = join user_home (codes "AMD RenderStudio")
    made ← ensure_directory path
    return path

  unfoldable pub get_default_workspace_path : Step FsPath
  get_default_workspace_path = do
    workspace_root ← get_render_studio_path
    syncthing_root ← get_render_studio_path
    marker_root ← get_render_studio_path
    let workspace_path = join workspace_root (codes "Workspace")
    let syncthing_path = join syncthing_root (codes "Syncthing")
    let marker_path = join (join marker_root (codes "Workspace")) (codes ".stfolder")
    found ← ask (exists marker_path)
    if found then return workspace_path else (do
      removed ← on_disk (remove_all syncthing_path)
      made ← on_disk (create_directories marker_path)
      return workspace_path)

  unfoldable pub get_cache_path : Step FsPath
  get_cache_path = do
    root ← get_render_studio_path
    let path = join root (codes "Cache")
    made ← ensure_directory path
    return path

  -- The loop of TempDirectory's constructor, which tries new names until one is free
  unfoldable pub free_path : ℕ → Step FsPath
  free_path zero = exhausted
  free_path (suc fuel) = do
    root ← get_render_studio_path
    uuid ← generate_uuid
    let path = join (join root (codes "Temp")) uuid
    taken ← ask (exists path)
    if taken then free_path fuel else return path

  -- TempDirectory::TempDirectory
  unfoldable pub temp_directory : ℕ → Step FsPath
  temp_directory fuel = do
    path ← free_path fuel
    made ← on_disk (create_directories path)
    return path

  -- TempDirectory::~TempDirectory, when the scope that ended with `outcome` is left
  unfoldable pub leave : {A : Type 0} → FsPath → Outcome A → Step A
  leave path outcome w =
      let r = remove_all path w.disk in
      if exists path w.disk
      then (if r.0 then outcome else terminated, record w { disk = r.1 })
      else (outcome, w)

  abbrev pub unwound : {A : Type 0} → FsPath → Outcome A × World → Outcome A × World
  unwound path (done a, w) = leave path (done a) w
  unwound path (thrown, w) = leave path thrown w
  unwound path (terminated, w) = (terminated, w)
  unwound path (undefined, w) = (undefined, w)
  unwound path (out_of_fuel, w) = (out_of_fuel, w)

  unfoldable pub scope : {A : Type 0} → FsPath → Step A → Step A
  scope path body w = unwound path (body w)

  -- A scope that begins with TempDirectory temp
  unfoldable pub with_temp : {A : Type 0} → ℕ → (FsPath → Step A) → Step A
  with_temp fuel body = do path ← temp_directory fuel; scope path (body path)

  -- zip_extract, whose status is only logged
  unfoldable pub unzip : FsPath → FsPath → Step Unit
  unzip archive destination w =
      (done tt, record w { disk = (zip_extract archive destination w.disk).1 })

  -- Extract
  unfoldable pub extract : FsPath → FsPath → Step Unit
  extract archive destination = do made ← ensure_directory destination; unzip archive destination

  -- directory_iterator(source) and recursive_directory_iterator(source), which throw when it is no
  -- directory
  abbrev pub listed : {A : Type 0} → Option A → Step A
  listed none = throw
  listed (some a) = return a

  unfoldable pub move_entries : List FsPath → FsPath → Step Unit
  move_entries [] destination = return tt
  move_entries (p ∷ ps) destination = do
    moved ← on_disk (rename p (join destination (filename p)))
    move_entries ps destination

  -- Move
  unfoldable pub move : FsPath → FsPath → Step Unit
  move source destination = do
    made ← ensure_directory destination
    found ← ask (entries source)
    ps ← listed found
    move_entries ps destination
