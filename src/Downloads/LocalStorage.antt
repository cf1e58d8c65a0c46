-- ===== src/Downloads/LocalStorage.antt =====
-- Sources/Networking/LocalStorageApi.cpp: the description of a light of the local storage, and its
-- download.
use render_studio_kit.Shared.{ℕ, ◌++◌, Option, none, some, if◌then◌else◌, is_nil, get_or}
use render_studio_kit.Shared.Texts.{Text, codes}
use render_studio_kit.Serialization.Json.{JsonLibrary}
use render_studio_kit.Downloads.Host.{Host, Step, return, throw, ask, on_disk, ◌>>=◌}
use render_studio_kit.Downloads.FileUtils.{listed, with_temp}
use render_studio_kit.Downloads.RestClient.{no_parameters, client_get, client_download}
use render_studio_kit.Downloads.Packages.{Light, light_of}
use render_studio_kit.Downloads.MaterialLibrary.{root_with}

module _ ⦃h : Host⦄ where
  open h use {FsPath, join, exists, create_directories, rename}

  module _ ⦃json : JsonLibrary⦄ where
    open json use {Json, null}

    -- GetLightPackage
    unfoldable pub get_light_package : (Text → Option Json) → ℕ → Text → Text → Step Light
    get_light_package parse_json fuel light_id storage_url = do
      response ← client_get fuel no_parameters (storage_url ++ (codes "/api/lights/" ++ light_id))
      listed (light_of (get_or null (parse_json response)))

  -- One file of the light: it is downloaded to `part` and moved to `target`.
  unfoldable pub fetch_file : ℕ → Text → FsPath → FsPath → Step Unit
  fetch_file fuel request part target = do
    downloaded ← client_download fuel no_parameters request part
    on_disk (rename part target)

  -- What follows create_directories in Download, in its temporary directory; the texture is downloaded
  -- under the name of the file.
  unfoldable pub fetch_light : ℕ → Light → FsPath → Text → FsPath → Step FsPath
  fetch_light fuel light path storage_url temp = do
    let base = storage_url ++ (codes "/api/lights/" ++ light.id)
    let part = join temp light.file
    fetched ← fetch_file fuel (base ++ codes "/file") part (join path light.file)
    textured ← elim light.texture [
      | none ↦ return tt
      | some texture ↦ fetch_file fuel (base ++ codes "/texture") part (join path texture)
    ]
    root_with (codes ".usda") path

  -- Download
  unfoldable pub download_light : ℕ → Light → FsPath → Text → Step FsPath
  download_light fuel light path storage_url = if is_nil storage_url then throw else (do
    found ← ask (exists path)
    if found then root_with (codes ".usda") path else (do
      made ← on_disk (create_directories path)
      with_temp fuel (fetch_light fuel light path storage_url)))
