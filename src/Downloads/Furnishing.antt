-- ===== src/Downloads/Furnishing.antt =====
-- What is on the stage after a prompt: all of the furniture of the answer, or what was there before.
use render_studio_kit.Shared.{
  ℕ, ◌≡◌, ◌≢◌, refl, ◌∙◌, ◌⊎◌, inl, inr, List, [], ◌∷◌, Option, none, some, ite, subst, arith,
  get_or,
}
use render_studio_kit.Shared.Dict
use render_studio_kit.Shared.Dict.{find-put}
use render_studio_kit.Shared.Texts.{Text}
use render_studio_kit.Serialization.Json.{JsonLibrary}
use render_studio_kit.Downloads.Host.{
  Host, World, Outcome, done, thrown, terminated, undefined, out_of_fuel, next, caught, return,
  try_or, ◌>>=◌,
}
use render_studio_kit.Downloads.Furniture.{Scene, PrimitiveInfo, AssistantResponse, Prim, Stage}
use render_studio_kit.Downloads.Assistant.{
  path_for, prim_for, place, turn_root, furnish, no_prim, ask_assistant, process_prompt,
}

module _ ⦃h : Host⦄ ⦃json : JsonLibrary⦄ (scene : Scene) (root : scene.PrimPath) where
  open scene use {PrimPath, path_key}

  -- The last entry of the furniture that is put at a path
  unfoldable pub last_for : PrimPath → List PrimitiveInfo → Option PrimitiveInfo
  last_for p [] = none
  last_for p (entry ∷ entries) = elim (last_for p entries) [
    | none ↦ ite (path_key.eq (path_for scene root entry) p) (some entry) none
    | some found ↦ some found
  ]

  -- What a stage has at a path where the furniture was put on it
  abbrev pub expected : Option PrimitiveInfo → Option Prim → Option Prim
  expected none old = old
  expected (some entry) old = some (prim_for scene entry)

  find-place :
      (p : PrimPath) (entries : List PrimitiveInfo) (stage : Stage scene)
      → Dict.find ⦃key = path_key⦄ p (place scene root entries stage)
        ≡ expected (last_for p entries) (Dict.find ⦃key = path_key⦄ p stage)
  unfolding place last_for
  find-place p [] stage = refl
  find-place p (entry ∷ entries) stage = ground (
    arith,
    find-place p entries
        (Dict.put ⦃key = path_key⦄ (path_for scene root entry) (prim_for scene entry) stage),
    find-put ⦃key = path_key⦄ p (path_for scene root entry) (prim_for scene entry) stage,
  )

  -- Every path but the root has what the last entry for it says, or what it had.
  abbrev pub Furnished : AssistantResponse → Stage scene → Stage scene → Type 0
  Furnished generated before after =
      (p : PrimPath)
      → root ≢ p
      → Dict.find ⦃key = path_key⦄ p after
        ≡ expected (last_for p generated.furniture) (Dict.find ⦃key = path_key⦄ p before)

  furnish-Furnished :
      (generated : AssistantResponse) (stage : Stage scene)
      → Furnished generated stage (furnish scene root (some generated) stage).1
  unfolding furnish turn_root
  furnish-Furnished generated stage p away =
      let placed = place scene root generated.furniture stage in
      ground (
        arith,
        away,
        find-place p generated.furniture stage,
        find-put ⦃key = path_key⦄ p root
            (record (get_or (no_prim scene) (Dict.find ⦃key = path_key⦄ root placed)) {
              rotation = scene.number 90 ∷ scene.number 0 ∷ scene.number 0 ∷ [];
              translation =
                  scene.negative (scene.number 150) ∷ scene.number 150 ∷ scene.number 10 ∷ [];
            })
            placed,
      )

  -- The prompt failed and the stage is as it was, or the answer was read and all of it is on the stage.
  abbrev pub Answered :
      ℕ → Text → Text → World → World → Stage scene → Option Text → Stage scene → Type 0
  Answered fuel api_key prompt w w' before answer after =
      ((answer ≡ none) × (after ≡ before))
      ⊎ ((generated : AssistantResponse) × (ask_assistant scene fuel api_key prompt w
            ≡ (done generated, w'))
          × (answer ≡ some generated.description)
          × Furnished generated before after)

  answered_cases :
      (fuel : ℕ) (api_key prompt : Text) (before after : Stage scene) (answer : Option Text)
      (w w' : World) (r : Outcome AssistantResponse × World)
      → ask_assistant scene fuel api_key prompt w ≡ r
      → next
          (caught none (next r (λ generated. return (some generated))))
          (λ answered. return (furnish scene root answered before))
        ≡ (done (answer, after), w')
      → Answered fuel api_key prompt w w' before answer after
  unfolding furnish
  answered_cases fuel api_key prompt before after answer w w' (done generated, v) e run = inr (
    generated,
    e ∙ cc run,
    cc run,
    subst (λ s. Furnished generated before s) (cc run) (furnish-Furnished generated before),
  )
  answered_cases fuel api_key prompt before after answer w w' (thrown, v) e run =
      inl (cc run, cc run)
  answered_cases fuel api_key prompt before after answer w w' (terminated, v) e run = cc run
  answered_cases fuel api_key prompt before after answer w w' (undefined, v) e run = cc run
  answered_cases fuel api_key prompt before after answer w w' (out_of_fuel, v) e run = cc run

  -- When ProcessPrompt returns, either it returns nothing and the stage is as it was, or it returns the
  -- description of the answer, and every path of the stage but the root has the file, the place and the
  -- rotation of the last piece of furniture for it, or what it had.
  pub process_prompt-Answered :
      (fuel : ℕ) (api_key prompt : Text) (before after : Stage scene) (answer : Option Text)
      (w w' : World)
      → process_prompt scene fuel (some api_key) prompt root before w ≡ (done (answer, after), w')
      → Answered fuel api_key prompt w w' before answer after
  unfolding process_prompt try_or ◌>>=◌
  process_prompt-Answered fuel api_key prompt before after answer w w' run =
      answered_cases fuel api_key prompt before after answer w w'
        (ask_assistant scene fuel api_key prompt w) refl run
