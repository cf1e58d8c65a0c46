-- ===== src/Examples/Sampling.antt =====
-- The theorems on time samples at concrete inputs.
use render_studio_kit.Shared.{◌≡◌, refl, [], ◌∷◌, some, nat_key, ℕ_discrete}
use render_studio_kit.Data.State.{Data, find_field}
use render_studio_kit.Data.UniqueFields.{IsValid}
use render_studio_kit.Data.TimeSamples.{bracketing_times, bracket, last_time}
use render_studio_kit.Data.Bracketing.{Found, bracketing_times-Found}
use render_studio_kit.Data.Samples.{HoldsSamples}
use render_studio_kit.Examples.Syncing.{paths-IsOrdered}
use render_studio_kit.Examples.World.{
  number, sampled, sample, no_samples, of_map, to_map, world, layer_data, Value,
}
use render_studio_kit.Shared.{ap, List, ℕ}

-- The primitive 1 has a sample at the time 10.
abbrev sampled_data : Data
sampled_data = record layer_data {
  table =
      (1, record { spec_type = 2; fields = (5, sampled (sample 10 (number 1) no_samples)) ∷ [] })
      ∷ [];
}

sampled_data-IsValid : IsValid sampled_data
unfolding find_field ℕ_discrete
sampled_data-IsValid = record { stored = ((refl, tt), tt); pending = tt }

to_map-of_map : (m : List (ℕ × Value)) → to_map (of_map m) ≡ m
to_map-of_map [] = refl
to_map-of_map (e ∷ m) = ap (λ n. e ∷ n) (to_map-of_map m)

world-HoldsSamples : HoldsSamples
world-HoldsSamples = record { holds = λ m. ap some (to_map-of_map m); not_empty = λ m. refl }

-- Between the samples at 1 and 5, and after the last one
bracketing_test : bracketing_times (1 ∷ 5 ∷ []) 3 ≡ some (1, 5)
unfolding bracketing_times bracket last_time ℕ_discrete
bracketing_test = refl

after_last_test : bracketing_times (1 ∷ 5 ∷ []) 7 ≡ some (5, 5)
unfolding bracketing_times bracket last_time ℕ_discrete
after_last_test = refl

-- The time 3 between samples at 1, 2 and 5
bracketing_times-Found_example :
    Found paths-IsOrdered 3 (1 ∷ 2 ∷ 5 ∷ []) (bracketing_times (1 ∷ 2 ∷ 5 ∷ []) 3)
unfolding last_time
bracketing_times-Found_example =
    bracketing_times-Found paths-IsOrdered 3 1 (2 ∷ 5 ∷ [])
      ((refl, (refl, tt)), ((refl, tt), (tt, tt))) refl refl
