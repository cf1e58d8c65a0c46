-- ===== src/Downloads/Temporary.antt =====
-- Temporary directories: the search for a free name ends, and no directory is left behind.
use render_studio_kit.Shared.{
  ℕ, zero, suc, ◌<◌, Bool, true, false, ◌≡◌, refl, ◌∙◌, inl, inr, Bool-cases, if◌then◌else◌, arith,
}
use render_studio_kit.Shared.Texts.{codes}
use render_studio_kit.Downloads.Host.{
  Host, World, Step, Outcome, done, thrown, terminated, undefined, out_of_fuel, return, ◌>>=◌,
}
use render_studio_kit.Downloads.Uuid.{uuid_of, generate_uuid}
use render_studio_kit.Downloads.FileUtils.{
  ensure_directory, get_render_studio_path, free_path, temp_directory, leave, unwound, scope,
  with_temp,
}
use render_studio_kit.Downloads.Documented.{Documented}
use render_studio_kit.Downloads.Answers.{Ended}

module _ ⦃h : Host⦄ where
  open h use {FsPath, Entropy, Disk, join, user_home, exists, remove_all, seed}

  abbrev pub render_studio : FsPath
  render_studio = join user_home (codes "AMD RenderStudio")

  -- The entropy after some identifiers were made, and the next one
  unfoldable pub drawn : ℕ → Entropy → Entropy
  drawn zero e = e
  drawn (suc n) e = drawn n (seed e).1

  abbrev pub candidate : ℕ → Entropy → FsPath
  candidate n e = join (join render_studio (codes "Temp")) (uuid_of ((seed (drawn n e)).0))

  -- One round of the loop, where the directory of Render Studio is there
  one_round :
      (fuel : ℕ) (w : World)
      → exists render_studio w.disk ≡ true
      → free_path (suc fuel) w
        ≡ (if exists (candidate 0 w.entropy) w.disk
              then free_path fuel
              else return (candidate 0 w.entropy))
            (record w { entropy = (seed w.entropy).1 })
  unfolding free_path get_render_studio_path ensure_directory generate_uuid ◌>>=◌ drawn
  one_round fuel w there = rw there refl

  -- The loop stopped at the first name that is free, and has changed no file.
  abbrev pub FirstFree : ℕ → World → Type 0
  FirstFree fuel w =
      (k : ℕ) × ((i : ℕ) → i < k → exists (candidate i w.entropy) w.disk ≡ true)
      × (exists (candidate k w.entropy) w.disk ≡ false)
      × (free_path fuel w
          ≡ (done (candidate k w.entropy), record w { entropy = drawn (suc k) w.entropy }))

  tried :
      (k : ℕ) (w : World)
      → exists (candidate 0 w.entropy) w.disk ≡ true
      → ((i : ℕ) → i < k → exists (candidate i (seed w.entropy).1) w.disk ≡ true)
      → (i : ℕ) → i < suc k
      → exists (candidate i w.entropy) w.disk ≡ true
  unfolding drawn
  tried k w taken before zero below = taken
  tried k w taken before (suc i) below = before i (omega arith)

  first_is_free :
      (fuel : ℕ) (w : World)
      → exists render_studio w.disk ≡ true
      → exists (candidate 0 w.entropy) w.disk ≡ false
      → FirstFree (suc fuel) w
  unfolding drawn
  first_is_free fuel w there free =
      (0, λ i below. absurd (omega arith), free, one_round fuel w there ∙ rw free refl)

  first_is_taken :
      (fuel : ℕ) (w : World)
      → exists render_studio w.disk ≡ true
      → exists (candidate 0 w.entropy) w.disk ≡ true
      → FirstFree fuel (record w { entropy = (seed w.entropy).1 })
      → FirstFree (suc fuel) w
  unfolding drawn
  first_is_taken fuel w there taken (k, before, free, run) =
      (suc k, tried k w taken before, free, one_round fuel w there ∙ rw taken run)

  -- If Render Studio's directory is there and one of the next names is free in it, the loop in which
  -- the constructor of TempDirectory looks for a name stops at the first free one, with more fuel than
  -- names are tried before a free one, and the loop has changed no file.
  pub free_path-enough :
      (fuel n : ℕ) (w : World)
      → exists render_studio w.disk ≡ true
      → exists (candidate n w.entropy) w.disk ≡ false
      → n < fuel
      → FirstFree fuel w
  unfolding drawn
  free_path-enough zero n w there free enough = absurd (omega arith)
  free_path-enough (suc fuel) zero w there free enough = first_is_free fuel w there free
  free_path-enough (suc fuel) (suc n) w there free enough =
      elim (Bool-cases (exists (candidate 0 w.entropy) w.disk)) [
        | inl taken ↦ first_is_taken fuel w there taken (
            free_path-enough fuel n (record w { entropy = (seed w.entropy).1 }) there free
              (omega arith))
        | inr now ↦ first_is_free fuel w there now
      ]

  module _ (laws : Documented) (path : FsPath) where
    abbrev Gone : {A : Type 0} → Outcome A × World → Type 0
    Gone r = Ended r.0 → exists path r.1.disk ≡ false

    unless_terminated :
        {A : Type 0} (there removed : Bool) (o : Outcome A) (w v : World)
        → (removed ≡ true → exists path v.disk ≡ false)
        → (there ≡ false → exists path w.disk ≡ false)
        → Gone (
            if◌then◌else◌ {A = Outcome A × World} there
              (if removed then o else terminated, v)
              (o, w))
    unless_terminated true true o w v p k ended = p refl
    unless_terminated true false o w v p k ended = absurd ended
    unless_terminated false removed o w v p k ended = k refl

    leave-Gone : {A : Type 0} (o : Outcome A) (w : World) → Gone (leave path o w)
    unfolding leave
    leave-Gone o w =
        unless_terminated (exists path w.disk) ((remove_all path w.disk).0) o w _
          (laws.removed path w.disk) (λ e. e)

    unwound-Gone : {A : Type 0} (r : Outcome A × World) → Gone (unwound path r)
    unwound-Gone (done a, w) ended = leave-Gone (done a) w ended
    unwound-Gone (thrown, w) ended = leave-Gone thrown w ended
    unwound-Gone (terminated, w) ended = absurd ended
    unwound-Gone (undefined, w) ended = absurd ended
    unwound-Gone (out_of_fuel, w) ended = absurd ended

  -- When a scope with a temporary directory is left, with a value or an exception, the directory is
  -- gone, whatever the body did.
  pub with_temp-Gone :
      {A : Type 0} (laws : Documented) (fuel : ℕ) (body : FsPath → Step A) (path : FsPath)
      (w v : World)
      → temp_directory fuel w ≡ (done path, v)
      → Ended ((with_temp fuel body w).0)
      → exists path ((with_temp fuel body w).1.disk) ≡ false
  unfolding with_temp scope ◌>>=◌
  with_temp-Gone laws fuel body path w v e = rw e (unwound-Gone laws path (body path v))
