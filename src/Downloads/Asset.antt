-- ===== src/Downloads/Asset.antt =====
-- Sources/Resolver/Asset.cpp: the assets that are opened from downloaded files. Their size, buffer and
-- reads are OpenUSD's calls on the file.
use render_studio_kit.Shared.{ℕ, List, [], ◌∷◌, Option, none, some, if◌then◌else◌}
use render_studio_kit.Shared.Texts.{Text, codes}
use render_studio_kit.Serialization.Json.{JsonLibrary}
use render_studio_kit.Downloads.Host.{
  Host, Step, World, Outcome, done, thrown, terminated, undefined, out_of_fuel, return, ask, try_or,
  ◌>>=◌,
}
use render_studio_kit.Downloads.Packages.{Item}
use render_studio_kit.Downloads.MaterialLibrary.{root_with, get_material_package, download_material}
use render_studio_kit.Downloads.LocalStorage.{get_light_package, download_light}

module _ ⦃h : Host⦄ where
  open h use {FsPath, File, exists, open_file, less}

  -- The member mFileMapping: no constructor gives it a value before the file is opened.
  pub data Mapping : Type 0 where
    unset : Mapping
    opened : Option File → Mapping

  -- class GpuOpenAsset
  pub record Asset : Type 0 where
    pub uuid : Text
    pub file_mapping : Mapping

  -- std::min_element by size_mb, and its dereference: an empty range has no smallest item.
  unfoldable pub min_element : Item → List Item → Item
  min_element best [] = best
  min_element best (item ∷ items) =
      if less item.size_mb best.size_mb then min_element item items else min_element best items

  unfoldable pub smallest : List Item → Step Item
  smallest [] w = (undefined, w)
  smallest (item ∷ items) w = (done (min_element item items), w)

  -- ~GpuOpenAsset: fclose of a pointer that has no value, or is null, is undefined.
  unfoldable pub close_asset : Asset → Step Unit
  close_asset asset w = elim asset.file_mapping [
    | unset ↦ (undefined, w)
    | opened none ↦ (undefined, w)
    | opened (some file) ↦ (done tt, w)
  ]

  -- A constructor of the derived class that throws: ~GpuOpenAsset closes the pointer that has no value.
  abbrev pub abandoned : {A : Type 0} → Outcome A × World → Outcome A × World
  abandoned (done a, w) = (done a, w)
  abandoned (thrown, w) = (undefined, w)
  abandoned (terminated, w) = (terminated, w)
  abandoned (undefined, w) = (undefined, w)
  abandoned (out_of_fuel, w) = (out_of_fuel, w)

  module _ ⦃json : JsonLibrary⦄ (parse_json : Text → Option (json.Json)) (fuel : ℕ) where
    -- The try block of GpuOpenAsset::GpuOpenAsset
    unfoldable pub download_asset : Text → FsPath → Step Asset
    download_asset uuid location = do
      response ← get_material_package parse_json fuel uuid
      material ← smallest response.results
      mtlx_root_location ← download_material fuel material location
      file ← ask (open_file mtlx_root_location)
      return (record { uuid = uuid; file_mapping = opened file })

    -- GpuOpenAsset::Open
    unfoldable pub gpuopen_asset : Text → FsPath → Step Asset
    gpuopen_asset uuid location =
        try_or (record { uuid = uuid; file_mapping = unset }) (download_asset uuid location)

    -- The file of the light: downloaded if there is nothing at the location
    unfoldable pub usda_location : Text → Text → FsPath → Step FsPath
    usda_location storage_url name location = do
      found ← ask (exists location)
      if found then root_with (codes ".usda") location else (do
        light ← get_light_package parse_json fuel name storage_url
        download_light fuel light location storage_url)

    unfoldable pub open_light : Text → Text → FsPath → Step Asset
    open_light storage_url name location = do
      usda ← usda_location storage_url name location
      file ← ask (open_file usda)
      return (record { uuid = codes "empty"; file_mapping = opened file })

    -- LocalStorageAsset::Open
    unfoldable pub local_storage_asset : Text → Text → FsPath → Step Asset
    local_storage_asset storage_url name location w =
        abandoned (open_light storage_url name location w)
