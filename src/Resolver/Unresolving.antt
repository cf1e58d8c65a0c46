-- ===== src/Resolver/Unresolving.antt =====
-- Sources/Resolver/Resolver.cpp: a place of the workspace, written as a path of Render Studio, is found.
use render_studio_kit.Shared.{◌≡◌, ◌≢◌, ◌⊎◌, refl, true, [], ◌∷◌, ◌++◌, some, ℕ_discrete, arith}
use render_studio_kit.Shared.Texts.{Text, codes, strip}
use render_studio_kit.Resolver.Paths.{
  FileSystem, drop, forward_slashes, root_path, is_render_studio_path, unresolve, resolve_impl,
}

abbrev pub NoBackslash : Text → Type 0
NoBackslash [] = Unit {0}
NoBackslash (c ∷ s) = (c ≢ b'\\') × NoBackslash s

-- The second text is the first one, but that some of its backslashes are slashes.
abbrev pub SlashesTurned : Text → Text → Type 0
SlashesTurned [] [] = Unit {0}
SlashesTurned [] (d ∷ r) = ⊥
SlashesTurned (c ∷ s) [] = ⊥
SlashesTurned (c ∷ s) (d ∷ r) = ((d ≡ c) ⊎ ((c ≡ b'\\') × (d ≡ b'/'))) × SlashesTurned s r

forward_slashes-NoBackslash : (s : Text) → NoBackslash (forward_slashes s)
unfolding forward_slashes
forward_slashes-NoBackslash [] = tt
forward_slashes-NoBackslash (c ∷ s) = (ground arith, forward_slashes-NoBackslash s)

forward_slashes-SlashesTurned : (s : Text) → SlashesTurned s (forward_slashes s)
unfolding forward_slashes
forward_slashes-SlashesTurned [] = tt
forward_slashes-SlashesTurned (c ∷ s) = (ground arith, forward_slashes-SlashesTurned s)

module _ (fs : FileSystem) (workspace_path : Text) where
  resolve_scheme :
      (relative : Text)
      → resolve_impl fs workspace_path (codes "studio://" ++ relative)
        ≡ some (fs.join (root_path fs workspace_path) relative)
  unfolding resolve_impl drop ℕ_discrete
  resolve_scheme relative = refl

  -- What Unresolve makes of a path is a path of Render Studio without a backslash:
  -- the scheme, and the path relative to the workspace with its backslashes turned. ResolveImpl finds
  -- the place of the path again, if for the file system the path relative to the workspace, joined to the
  -- workspace, is the same place as the path, also when backslashes of it are turned.
  pub resolve_impl-unresolve :
      (SamePlace : Text → Text → Type 0) (path : Text)
      → ((r : Text)
          → SlashesTurned (fs.lexically_relative path (root_path fs workspace_path)) r
          → SamePlace (fs.join (root_path fs workspace_path) r) path)
      → (is_render_studio_path (unresolve fs workspace_path path) ≡ true)
        × NoBackslash (unresolve fs workspace_path path)
        × ((r found : Text) × (unresolve fs workspace_path path ≡ codes "studio://" ++ r)
            × SlashesTurned (fs.lexically_relative path (root_path fs workspace_path)) r
            × (resolve_impl fs workspace_path (unresolve fs workspace_path path) ≡ some found)
            × SamePlace found path)
  unfolding unresolve is_render_studio_path strip ℕ_discrete
  resolve_impl-unresolve SamePlace path same =
      let relative = fs.lexically_relative path (root_path fs workspace_path) in
      let r = forward_slashes relative in
      let turned = forward_slashes-SlashesTurned relative in
      (
        refl,
        (ground (arith, forward_slashes-NoBackslash relative)),
        (r, fs.join (root_path fs workspace_path) r, refl, turned, resolve_scheme r, same r turned),
      )
