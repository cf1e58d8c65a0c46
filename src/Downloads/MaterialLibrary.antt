-- ===== src/Downloads/MaterialLibrary.antt =====
-- Sources/Networking/MaterialLibraryApi.cpp: the description of a material, and its download.
use render_studio_kit.Shared.{
  ℕ, ◌++◌, List, [], ◌∷◌, Option, none, some, if◌then◌else◌, ◌&&◌, get_or,
}
use render_studio_kit.Shared.Texts.{Text, codes, text_eq}
use render_studio_kit.Serialization.Json.{JsonLibrary}
use render_studio_kit.Downloads.Host.{Host, Step, ask, on_disk, ◌>>=◌}
use render_studio_kit.Downloads.FileUtils.{listed, with_temp, extract, move}
use render_studio_kit.Downloads.RestClient.{no_parameters, client_get, client_download}
use render_studio_kit.Downloads.Packages.{Item, PackageResponse, response_of}

module _ ⦃h : Host⦄ where
  open h use {
    FsPath, Disk, join, extension, exists, is_regular_file, recursive_entries, create_directories,
  }

  -- The first regular file with the extension, or an exception
  unfoldable pub first_with : Text → List FsPath → Disk → Option FsPath
  first_with ending [] disk = none
  first_with ending (p ∷ ps) disk =
      if is_regular_file p disk && text_eq (extension p) ending
      then some p
      else first_with ending ps disk

  -- getMtlxRoot and getUsdRoot
  unfoldable pub root_with : Text → FsPath → Step FsPath
  root_with ending path = do
    found ← ask (recursive_entries path)
    ps ← listed found
    root ← ask (first_with ending ps)
    listed root

  module _ ⦃json : JsonLibrary⦄ where
    open json use {Json, null}

    -- GetMaterialPackage; a text that cannot be parsed is null.
    unfoldable pub get_material_package : (Text → Option Json) → ℕ → Text → Step PackageResponse
    get_material_package parse_json fuel material_id = do
      let base = codes "https://api.matlib.gpuopen.com/api/packages/?material="
      response ← client_get fuel no_parameters (base ++ material_id)
      listed (response_of (get_or null (parse_json response)))

  -- What follows create_directories in Download, in its temporary directory
  unfoldable pub fetch_material : ℕ → Item → FsPath → FsPath → Step FsPath
  fetch_material fuel material path temp = do
    let archive_path = join temp (codes "Package.zip")
    downloaded ← client_download fuel no_parameters material.file_url archive_path
    extracted ← extract archive_path (join temp (codes "Package"))
    moved ← move (join temp (codes "Package")) path
    root_with (codes ".mtlx") path

  -- Download
  unfoldable pub download_material : ℕ → Item → FsPath → Step FsPath
  download_material fuel material path = do
    found ← ask (exists path)
    if found then root_with (codes ".mtlx") path else (do
      made ← on_disk (create_directories path)
      with_temp fuel (fetch_material fuel material path))
