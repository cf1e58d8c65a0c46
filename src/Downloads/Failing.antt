-- ===== src/Downloads/Failing.antt =====
-- What a failed download leaves of an asset, and what closing the asset then does.
use render_studio_kit.Shared.{ℕ, ◌≤◌, ◌++◌, false, ◌≡◌, refl, [], Option, none}
use render_studio_kit.Shared.Texts.{Text, codes}
use render_studio_kit.Serialization.Json.{JsonLibrary}
use render_studio_kit.Downloads.Host.{
  Host, get, World, Step, done, thrown, undefined, try_or, ◌>>=◌,
}
use render_studio_kit.Networking.Url.{encode}
use render_studio_kit.Downloads.RestClient.{no_parameters, client_get, error_text}
use render_studio_kit.Downloads.Packages.{response_of, light_of}
use render_studio_kit.Downloads.MaterialLibrary.{get_material_package}
use render_studio_kit.Downloads.LocalStorage.{get_light_package}
use render_studio_kit.Downloads.Redirects.{Replies, rounds}
use render_studio_kit.Downloads.Answers.{client_get-Replies, text_or_error}
use render_studio_kit.Downloads.Asset.{
  Asset, close_asset, download_asset, gpuopen_asset, open_light, local_storage_asset, usda_location,
}

-- The requests for the descriptions
abbrev pub material_request : Text → Text
material_request uuid = codes "https://api.matlib.gpuopen.com/api/packages/?material=" ++ uuid

abbrev pub light_request : Text → Text → Text
light_request storage_url name = storage_url ++ (codes "/api/lights/" ++ name)

module _ ⦃h : Host⦄ where
  -- An asset that is created and destroyed
  abbrev pub used : Step Asset → Step Unit
  used m = m >>= close_asset

  -- The life of an asset is undefined behaviour
  abbrev pub IsUndefined : Step Asset → World → Type 0
  IsUndefined m w = (used m w).0 ≡ undefined

module _ ⦃h : Host⦄ ⦃json : JsonLibrary⦄ (parse_json : Text → Option (json.Json)) (fuel : ℕ) where
  open h use {FsPath, exists}

  failed-IsUndefined :
      (uuid storage_url name : Text) (location : FsPath) (w v : World)
      → ((download_asset parse_json fuel uuid location w ≡ (thrown, v))
          → IsUndefined (gpuopen_asset parse_json fuel uuid location) w)
        × ((open_light parse_json fuel storage_url name location w ≡ (thrown, v))
            → IsUndefined (local_storage_asset parse_json fuel storage_url name location) w)
  unfolding gpuopen_asset local_storage_asset close_asset try_or ◌>>=◌
  failed-IsUndefined uuid storage_url name location w v = (λ e. rw e refl, λ e. rw e refl)

  -- A description that cannot be fetched: the text "[Error]" is no JSON, and null is no object.
  no_material :
      (uuid : Text) (location : FsPath) (w v : World)
      → parse_json error_text ≡ none
      → json.as_object json.null ≡ none
      → client_get fuel no_parameters (material_request uuid) w ≡ (done error_text, v)
      → download_asset parse_json fuel uuid location w ≡ (thrown, v)
  unfolding download_asset get_material_package response_of ◌>>=◌
  no_material uuid location w v p n e = rw e (rw p (rw n refl))

  no_light :
      (storage_url name : Text) (location : FsPath) (w v : World)
      → parse_json error_text ≡ none
      → json.as_object json.null ≡ none
      → exists location w.disk ≡ false
      → client_get fuel no_parameters (light_request storage_url name) w ≡ (done error_text, v)
      → open_light parse_json fuel storage_url name location w ≡ (thrown, v)
  unfolding open_light usda_location get_light_package light_of ◌>>=◌
  no_light storage_url name location w v p n new e = rw new (rw e (rw p (rw n refl)))

  -- When the request for the description of a material throws, as it does without a network, the life
  -- of the asset that is opened is undefined behaviour: its file is closed without ever having had a
  -- value.
  pub unreachable_material-IsUndefined :
      (uuid : Text) (location : FsPath) (w v : World)
      → parse_json error_text ≡ none
      → json.as_object json.null ≡ none
      → (reply : Replies get [] no_parameters (encode (material_request uuid)) w thrown v)
      → rounds get [] no_parameters reply ≤ fuel
      → IsUndefined (gpuopen_asset parse_json fuel uuid location) w
  unfolding text_or_error
  unreachable_material-IsUndefined uuid location w v p n reply enough =
      (failed-IsUndefined uuid [] [] location w v).0 (
        no_material uuid location w v p n
          (client_get-Replies no_parameters (material_request uuid) w v thrown reply fuel enough))

  -- The same of a light that is not downloaded yet.
  pub unreachable_light-IsUndefined :
      (storage_url name : Text) (location : FsPath) (w v : World)
      → parse_json error_text ≡ none
      → json.as_object json.null ≡ none
      → (reply : Replies get [] no_parameters (encode (light_request storage_url name)) w thrown v)
      → rounds get [] no_parameters reply ≤ fuel
      → exists location w.disk ≡ false
      → IsUndefined (local_storage_asset parse_json fuel storage_url name location) w
  unfolding text_or_error
  unreachable_light-IsUndefined storage_url name location w v p n reply enough new =
      (failed-IsUndefined [] storage_url name location w v).1 (
        no_light storage_url name location w v p n new (
          client_get-Replies no_parameters (light_request storage_url name) w v thrown reply fuel
            enough))
