-- ===== src/Resolver/Assets.antt =====
-- Sources/Resolver/Resolver.cpp: identifiers of assets, and what is opened for them. Url::Parse throws
-- on a text that is no URL, here `none`. The notice that brackets a download is left out.
use render_studio_kit.Shared.{
  not, ◌||◌, ◌&&◌, [], ◌++◌, Option, some, is_nil, if◌then◌else◌, length,
}
use render_studio_kit.Shared.Options.{◌>>=◌}
use render_studio_kit.Shared.Texts.{Text, codes, starts_with, remove}
use render_studio_kit.Networking.Url.{parse}
use render_studio_kit.Resolver.Paths.{
  FileSystem, studio, gpuopen, storage, is_render_studio_path, drop, forward_slashes, root_path,
  assets_cache_path,
}

-- What is opened: a file by OpenUSD's resolver, a material by its uuid, or an asset of the storage by
-- its name, with the place where it is saved.
pub data Opened : Type 0 where
  file : Text → Opened
  gpuopen_asset local_storage_asset : Text → Text → Opened

module _ (fs : FileSystem) where
  open fs use {join, norm_path, cat_paths, before_slash, is_relative_path, uri_parse}

  -- The name of the asset without the query, kept in the identifiers of its files
  unfoldable pub asset_path : Text → Option Text
  asset_path anchor = do
    url ← parse uri_parse anchor
    some (url.protocol ++ (codes ":/" ++ remove b'/' url.path))

  -- _AnchorRelativePathForStudioProtocol: at most one of the three prefixes fits.
  unfoldable pub anchor_relative_path : Text → Text → Option Text
  anchor_relative_path anchor path =
      let forward = forward_slashes anchor in
      if not (is_render_studio_path anchor)
        && (is_relative_path anchor || not (is_relative_path path))
      then some path
      else if starts_with studio anchor
      then some (norm_path (cat_paths (before_slash forward) path))
      else if starts_with gpuopen anchor
      then (do asset ← asset_path anchor; some (norm_path (cat_paths asset path)))
      else if starts_with storage anchor
      then some (norm_path (cat_paths forward path))
      else some (norm_path [])

  -- RenderStudioResolver::_CreateIdentifier; an empty anchor is none.
  unfoldable pub create_identifier : Text → Text → Option Text
  create_identifier path anchor =
      if is_nil path
      then some path
      else if is_nil anchor
      then some (norm_path path)
      else if is_render_studio_path path
      then some (norm_path path)
      else (do anchored ← anchor_relative_path anchor path; some (norm_path anchored))

  -- RenderStudioResolver::_OpenAsset
  unfoldable pub open_asset : Text → Text → Option Opened
  open_asset workspace_path path =
      if starts_with studio path
      then some (file (join (root_path fs workspace_path) (drop (length studio) path)))
      else if starts_with gpuopen path
      then (do
        url ← parse uri_parse path
        let uuid = remove b'/' url.path
        let materials = join (assets_cache_path fs workspace_path) (codes "Materials")
        some (gpuopen_asset uuid (join materials uuid)))
      else if starts_with storage path
      then (let name = drop (length storage) path in
          let folder = join (assets_cache_path fs workspace_path) (codes "Storage") in
          some (local_storage_asset name (join folder name)))
      else some (file path)
