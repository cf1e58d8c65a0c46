-- ===== src/FileFormat/Original.antt =====
-- Sources/Resolver/FileFormat.cpp: the format of the file behind a layer, _GetOriginalFormat. Formats and
-- the extension of a path are parameters. Texts are lists of bytes.
use render_studio_kit.Shared.{
  Bool, not, ◌&&◌, [], ◌∷◌, Option, some, is_nil, if◌then◌else◌, ite, ℕ_discrete,
}
use render_studio_kit.Shared.Texts.{Text, codes, contains}

pub record Formats : Type 1 where
  pub Format : Type 0
  -- _GetUsdcFileFormat and _GetUsdaFileFormat, SdfFileFormat::CanRead, SdfFileFormat::FindByExtension, and
  -- std::filesystem::path::extension
  pub usdc : Format
  pub usda : Format
  pub can_read : Format → Text → Bool
  pub find_by_extension : Text → Option Format
  pub extension : Text → Text

-- path.substr(0, path.find_first_of('?'))
unfoldable pub before_query : Text → Text
before_query [] = []
before_query (c ∷ s) = let rest = before_query s in ite (ℕ_discrete c b'?') [] (c ∷ rest)

-- The extension, or a fixed one for a material and for an asset of the storage without one
unfoldable pub assumed_extension : Text → Text → Text
assumed_extension path extension =
    if not (is_nil extension)
    then extension
    else if contains (codes "storage:/") path
    then codes ".usda"
    else if contains (codes "gpuopen:/") path
    then codes ".mtlx"
    else extension

module _ (formats : Formats) where
  open formats use {Format, usdc, usda, can_read, find_by_extension, extension}

  unfoldable pub get_original_format : Text → Option Format
  get_original_format path =
      let assumed = assumed_extension path (extension (before_query path)) in
      let is_usd = contains (codes ".usd") assumed in
      if is_usd && can_read usdc path
      then some usdc
      else if is_usd && can_read usda path
      then some usda
      else find_by_extension assumed
