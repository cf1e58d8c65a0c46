-- ===== src/Notice.antt =====
-- Sources/Notice/Notice.cpp: the notice that a primitive changed, and the choice of the notices that
-- are sent at the end of RenderStudioData::ProcessRemoteUpdates (Sources/Resolver/Data.cpp).
pub mod Deduplicated
use render_studio_kit.Shared.{
  Bool, not, ◌&&◌, List, [], ◌∷◌, ◌++◌, Option, none, some, get_or, if◌then◌else◌,
}
use render_studio_kit.Shared.Dict
use render_studio_kit.Usd.{Usd, path_key}

module _ ⦃usd : Usd⦄ where
  open usd use {SdfPath, is_prim_path, get_prim_path, is_absolute_root_path}

  pub record PrimitiveChanged : Type 0 where
    pub changed_prim : SdfPath
    pub was_resynched : Bool
    pub is_valid : Bool

  -- The constructor; `is_valid` starts as true.
  unfoldable pub primitive_changed : SdfPath → Bool → PrimitiveChanged
  primitive_changed path resynched =
      let changed = if is_prim_path path then path else get_prim_path path in
      record {
        changed_prim = changed;
        was_resynched = resynched;
        is_valid = is_prim_path changed && not (is_absolute_root_path changed);
      }

  abbrev pub Groups : Type 0
  Groups = List (SdfPath × List PrimitiveChanged)

  -- noticesMap[notice.GetChangedPrim()].push_back(notice), for the valid ones
  unfoldable pub group_notice : Groups → PrimitiveChanged → Groups
  group_notice m n =
      if n.is_valid
      then Dict.put n.changed_prim (get_or [] (Dict.find n.changed_prim m) ++ n ∷ []) m
      else m

  unfoldable pub group_notices : Groups → List PrimitiveChanged → Groups
  group_notices m [] = m
  group_notices m (n ∷ ns) = group_notices (group_notice m n) ns

  -- std::find_if for a notice that WasResynched
  unfoldable pub find_resynched : List PrimitiveChanged → Option PrimitiveChanged
  find_resynched [] = none
  find_resynched (n ∷ ns) = if n.was_resynched then some n else find_resynched ns

  unfoldable pub front : List PrimitiveChanged → Option PrimitiveChanged
  front [] = none
  front (n ∷ ns) = some n

  -- The notice that is sent for a path
  unfoldable pub chosen_notice : List PrimitiveChanged → Option PrimitiveChanged
  chosen_notice ns = elim (find_resynched ns) [ none ↦ front ns | some n ↦ some n ]

  unfoldable pub chosen_notices : Groups → List PrimitiveChanged
  chosen_notices [] = []
  chosen_notices ((p, ns) ∷ m) = elim (chosen_notice ns) [
    | none ↦ chosen_notices m
    | some n ↦ n ∷ chosen_notices m
  ]

  -- The notices sent, in order
  unfoldable pub deduplicate_notices : List PrimitiveChanged → List PrimitiveChanged
  deduplicate_notices ns = chosen_notices (group_notices [] ns)
