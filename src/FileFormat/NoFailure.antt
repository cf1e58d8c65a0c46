-- ===== src/FileFormat/NoFailure.antt =====
-- Sources/Resolver/FileFormat.cpp: a connected client never fails in ProcessLiveUpdates.
use render_studio_kit.Shared.{
  ℕ, ◌≡◌, refl, inl, inr, String, List, [], ◌∷◌, some, Option-cases, string_key,
}
use render_studio_kit.Shared.Dict
use render_studio_kit.Shared.Dict.{find-All}
use render_studio_kit.Usd.{Usd}
use render_studio_kit.Data.State.{Data}
use render_studio_kit.Data.Layer.{Layer}
use render_studio_kit.Data.Process.{accumulate_remote_update}
use render_studio_kit.Serialization.Api.{DeltaEvent}
use render_studio_kit.FileFormat.Registry.{Registry}
use render_studio_kit.FileFormat.Events.{FileFormat, pending}
use render_studio_kit.FileFormat.LiveUpdates.{of_updates, accumulate_deltas}

module _ ⦃usd : Usd⦄ where
  -- Every edit has a number.
  abbrev pub AllHaveNumbers : List DeltaEvent → Type 0
  AllHaveNumbers [] = Unit {0}
  AllHaveNumbers (v ∷ vs) = ((n : ℕ) × (v.sequence ≡ some n)) × AllHaveNumbers vs

  -- What waits in the file format has numbers.
  abbrev pub IsValid : FileFormat → Type 0
  IsValid f = Dict.All AllHaveNumbers f.accumulated_deltas

  pub pending-AllHaveNumbers :
      (id : String) (m : List (String × List DeltaEvent))
      → Dict.All AllHaveNumbers m
      → AllHaveNumbers (pending id m)
  pending-AllHaveNumbers id m h = elim (Option-cases (Dict.find id m)) [
    | inl e ↦ rw (e, AllHaveNumbers) tt
    | inr (vs, e) ↦ rw e (find-All AllHaveNumbers id vs m h e)
  ]

  pub accumulate_deltas-some :
      (vs : List DeltaEvent) (d : Data)
      → AllHaveNumbers vs
      → (d' : Data) × (accumulate_deltas vs d ≡ some d')
  unfolding accumulate_deltas
  accumulate_deltas-some [] d h = (d, refl)
  accumulate_deltas-some (v ∷ vs) d ((n, e), h) =
      let r = accumulate_deltas-some vs (accumulate_remote_update d (of_updates v.updates) n) h in
      (r.0, rw (accumulate_deltas, e) r.1)
