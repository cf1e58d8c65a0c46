-- ===== src/FileFormat/Loading.antt =====
-- Sources/Resolver/FileFormat.cpp: reading a layer, and reading it again on a remote reload.
use render_studio_kit.Shared.{
  String, Bool, true, false, not, ◌&&◌, List, [], ◌∷◌, ◌++◌, Option, none, some, if◌then◌else◌,
  string_key,
}
use render_studio_kit.Shared.Dict
use render_studio_kit.Usd.{Usd}
use render_studio_kit.Data.State.{Data, create_spec, on_loaded}
use render_studio_kit.Serialization.Api.{reload_event, Codec}
use render_studio_kit.FileFormat.Registry.{Registry, add_layer, get_by_identifier, is_null}
use render_studio_kit.FileFormat.Events.{FileFormat}
use render_studio_kit.Data.State as State

module _ ⦃usd : Usd⦄ where
  open usd use {SdfPath, SpecType}

  -- What OpenUSD does with files: the formats, reading, and SdfAbstractData::CopyFrom. SdfLayer::Reload
  -- calls Read with the resolved path, or skips a layer that needs no reload.
  pub record Storage : Type 1 where
    pub Format : Type 0
    pub Source : Type 0
    pub original_format : String → Option Format
    pub can_read_original : Format → String → Bool
    pub read_original : Format → String → Option Source
    pub copy_from : Data → Source → Data
    pub reload_path : String → Option String
    pub absolute_root_path : SdfPath
    pub pseudo_root : SpecType

  module _ (storage : Storage) (codec : Codec) (user : String) where
    open storage use {
      Source, original_format, can_read_original, read_original, copy_from, reload_path,
      absolute_root_path, pseudo_root,
    }

    unfoldable pub can_read : String → Bool
    can_read path = elim (original_format path) [
      | none ↦ false
      | some format ↦ can_read_original format path
    ]

    unfoldable pub init_data : Data
    init_data = create_spec State.init absolute_root_path pseudo_root

    -- The data of a layer that was read
    unfoldable pub loaded_data : Source → Data
    loaded_data source = on_loaded (copy_from init_data source)

    -- The layer that is read has data of its own from here on; the registry knows it or learns it.
    unfoldable pub register : Registry → String → Data → Registry
    register r id d = elim (get_by_identifier r id) [
      | none ↦ add_layer r (record { identifier = id; is_expired = false; layer_data = d })
      | some layer ↦
          if layer.is_expired
          then add_layer r (record { identifier = id; is_expired = false; layer_data = d })
          else Dict.put id (record layer { layer_data = d }) r
    ]

    -- The reload event that a new reading announces to the others
    unfoldable pub announce_reload : FileFormat → String → List String
    announce_reload f id =
        if not f.reload_in_progress
          && f.has_client
          && not (is_null (get_by_identifier f.layer_registry id))
        then codec.serialize (reload_event (record { layer = id; user = user; sequence = none }))
          ∷ []
        else []

    -- Read: what it returns, the state, and the texts sent
    unfoldable pub read : FileFormat → String → String → Bool × FileFormat × List String
    read f id path = elim (original_format path) [
      | none ↦ (false, f, [])
      | some format ↦ elim (read_original format path) [
        | none ↦ (false, f, [])
        | some source ↦ (
          true,
          record f { layer_registry = register f.layer_registry id (loaded_data source) },
          announce_reload f id,
        )
      ]
    ]

    -- layer->Reload()
    unfoldable pub reload_layer : FileFormat → String → FileFormat × List String
    reload_layer f id = elim (reload_path id) [
      | none ↦ (f, [])
      | some path ↦ let (done, f', sent) = read f id path in (f', sent)
    ]

    -- The loop over the requested reloads: the state, the texts sent, and the LayerReloaded notices
    unfoldable pub reload_layers : List String → FileFormat → FileFormat × List String × List String
    reload_layers [] f = (f, [], [])
    reload_layers (id ∷ ids) f =
        if is_null (get_by_identifier f.layer_registry id)
        then reload_layers ids f
        else (let (f', sent) = reload_layer f id in
            let (f'', sent', notices) = reload_layers ids f' in (f'', sent ++ sent', id ∷ notices))
