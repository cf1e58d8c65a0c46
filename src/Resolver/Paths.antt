-- ===== src/Resolver/Paths.antt =====
-- Sources/Resolver/Resolver.cpp: which paths are Render Studio's, and how they are turned into places
-- in the workspace and back. Texts are lists of bytes; std::filesystem and OpenUSD's functions on paths
-- are parameters. std::string::at and std::string::replace throw out of range, here `none`.
use render_studio_kit.Shared.{
  ℕ, zero, suc, Bool, true, false, not, ◌&&◌, List, [], ◌∷◌, ◌++◌, Option, none, some, is_nil,
  if◌then◌else◌, ite, ℕ_discrete, length, ltb,
}
use render_studio_kit.Shared.Texts.{Text, codes, text_eq, starts_with, contains, strip}
use render_studio_kit.Networking.Url.{UriParser}

pub record FileSystem : Type 0 where
  -- GetDefaultWorkspacePath and GetCachePath
  pub default_workspace : Text
  pub cache : Text
  -- std::filesystem::path: operator/, lexically_relative, extension, and the first part of a path
  pub join : Text → Text → Text
  pub lexically_relative : Text → Text → Text
  pub extension : Text → Text
  pub first_part : Text → Text
  -- TfStringTokenize with "/", TfNormPath, TfStringCatPaths, TfStringGetBeforeSuffix with '/', and
  -- TfIsRelativePath
  pub tokenize : Text → List Text
  pub norm_path : Text → Text
  pub cat_paths : Text → Text → Text
  pub before_slash : Text → Text
  pub is_relative_path : Text → Bool
  pub uri_parse : UriParser

abbrev pub studio : Text
studio = codes "studio:/"

abbrev pub gpuopen : Text
gpuopen = codes "gpuopen:/"

abbrev pub storage : Text
storage = codes "storage:/"

-- RenderStudioResolver::IsRenderStudioPath
unfoldable pub is_render_studio_path : Text → Bool
is_render_studio_path path =
    if starts_with studio path
    then true
    else if starts_with gpuopen path
    then true
    else if starts_with storage path
    then true
    else false

-- copy.erase(0, n)
unfoldable pub drop : ℕ → Text → Text
drop zero s = s
drop (suc n) [] = []
drop (suc n) (c ∷ s) = drop n s

-- std::replace(…, '\\', '/')
unfoldable pub forward_slashes : Text → Text
forward_slashes [] = []
forward_slashes (c ∷ s) = ite (ℕ_discrete c b'\\') b'/' c ∷ forward_slashes s

-- copy.replace(copy.find("studio:"), 7, by)
unfoldable pub replace_scheme : Text → Text → Option Text
replace_scheme by [] = none
replace_scheme by (c ∷ s) =
    let rest = replace_scheme by s in
    elim (strip (codes "studio:") (c ∷ s)) [
      | some after ↦ some (by ++ after)
      | none ↦ elim rest [ none ↦ none | some copy ↦ some (c ∷ copy) ]
    ]

module _ (fs : FileSystem) (workspace_path : Text) where
  open fs use {default_workspace, cache, join, lexically_relative, extension, first_part, tokenize}

  -- RenderStudioResolver::GetRootPath and GetAssetsCachePath; `workspace_path` is sWorkspacePath.
  unfoldable pub root_path : Text
  root_path = if is_nil workspace_path then default_workspace else workspace_path

  unfoldable pub assets_cache_path : Text
  assets_cache_path = join cache (codes "assets")

  -- RenderStudioResolver::IsUnresolvable
  unfoldable pub is_unresolvable : Text → Bool
  is_unresolvable path =
      if contains (codes "://") path
      then false
      else let relative = lexically_relative path root_path in
        not (is_nil relative) && not (text_eq (first_part relative) (codes ".."))

  -- RenderStudioResolver::Unresolve
  unfoldable pub unresolve : Text → Text
  unresolve path = codes "studio://" ++ forward_slashes (lexically_relative path root_path)

  -- RenderStudioResolver::ResolveImpl
  unfoldable pub resolve_impl : Text → Option Text
  resolve_impl path = elim (drop (length studio) path) [
    | [] ↦ none
    | c ∷ copy ↦ some (join root_path (ite (ℕ_discrete c b'/') copy (c ∷ copy)))
  ]

  -- location /= tokens.at(i)
  unfoldable pub join_all : Text → List Text → Text
  join_all location [] = location
  join_all location (token ∷ tokens) = join_all (join location token) tokens

  -- A path of more than two tokens is a file that was downloaded with the asset.
  unfoldable pub resolve_download : Text → Text → Text
  resolve_download folder path = elim (tokenize path) [
    | [] ↦ path
    | scheme ∷ tokens ↦
        if ltb 1 (length tokens) then join_all (join assets_cache_path folder) tokens else path
  ]

  -- RenderStudioResolver::_Resolve
  unfoldable pub resolve : Text → Option Text
  resolve path =
      if starts_with gpuopen path
      then some (resolve_download (codes "Materials") path)
      else if starts_with storage path
      then some (resolve_download (codes "Storage") path)
      else if not (contains (codes ".usd") (extension path))
      then replace_scheme root_path path
      else some path
