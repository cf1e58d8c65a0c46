-- ===== src/FileFormat/Registry.antt =====
-- Sources/Resolver/Registry.cpp: the layers in use, by their identifiers. A handle is a weak pointer
-- to the layer; a layer stands in at most one handle of the registry, so its data stands there.
use render_studio_kit.Shared.{
  String, Bool, true, List, [], ◌∷◌, Option, none, some, if◌then◌else◌, string_key,
}
use render_studio_kit.Shared.Dict
use render_studio_kit.Usd.{Usd}
use render_studio_kit.Data.State.{Data}

module _ ⦃usd : Usd⦄ where
  pub record LayerHandle : Type 0 where
    pub identifier : String
    pub is_expired : Bool
    pub layer_data : Data

  -- std::map<std::string, SdfLayerHandle>
  abbrev pub Registry : Type 0
  Registry = List (String × LayerHandle)

  unfoldable pub add_layer : Registry → LayerHandle → Registry
  add_layer r layer = Dict.put layer.identifier layer r

  unfoldable pub remove_layer : Registry → LayerHandle → Registry
  remove_layer r layer = elim (Dict.find layer.identifier r) [
    | none ↦ r
    | some found ↦ Dict.erase layer.identifier r
  ]

  -- The loop of erase_if
  unfoldable pub remove_expired_layers : Registry → Registry
  remove_expired_layers [] = []
  remove_expired_layers ((id, layer) ∷ r) =
      if layer.is_expired then remove_expired_layers r else (id, layer) ∷ remove_expired_layers r

  module _ {S : Type 0} (fn : S → LayerHandle → Option (S × LayerHandle)) where
    -- The loop of ForEachLayer. The callback changes the layer that it is given; `none` is what it
    -- throws.
    unfoldable pub visit_layers : S → Registry → Option (S × Registry)
    visit_layers s [] = some (s, [])
    visit_layers s ((id, layer) ∷ r) =
        if layer.is_expired
        then elim (visit_layers s r) [ none ↦ none | some (s', r') ↦ some (s', (id, layer) ∷ r') ]
        else elim (fn s layer) [
          | none ↦ none
          | some (s', layer') ↦ elim (visit_layers s' r) [
            | none ↦ none
            | some (s'', r') ↦ some (s'', (id, layer') ∷ r')
          ]
        ]

    unfoldable pub for_each_layer : S → Registry → Option (S × Registry)
    for_each_layer s r = visit_layers s (remove_expired_layers r)

  -- A missing layer is a null handle.
  unfoldable pub get_by_identifier : Registry → String → Option LayerHandle
  get_by_identifier r id = Dict.find id r

  -- `== nullptr`: an expired handle is null too.
  unfoldable pub is_null : Option LayerHandle → Bool
  is_null none = true
  is_null (some layer) = layer.is_expired
