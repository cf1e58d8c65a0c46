-- ===== src/Examples/Editing.antt =====
-- The theorems on local edits and on conflicts with remote ones at concrete inputs.
use render_studio_kit.Shared.{◌≡◌, refl, true, false, [], ◌∷◌, some, arith, nat_key, ℕ_discrete}
use render_studio_kit.Shared.Dict
use render_studio_kit.Data.State.{
  init, get_field_value, find_field, has_spec, get, get_spec_type, create_spec,
}
use render_studio_kit.Data.Edit.{
  set, set_const, write_field_value, put_field, write_field_value_delta, delta_spec,
}
use render_studio_kit.Data.UniqueFields.{IsValid}
use render_studio_kit.Data.Lookup.{get_field_value-set}
use render_studio_kit.Data.LocalDeltas.{pending_value, is_unacknowledged, set_recorded}
use render_studio_kit.Data.Layer.{forwarding, forwarding-Forwards}
use render_studio_kit.Data.Merge.{contains, deduplicate, deduplicate_from}
use render_studio_kit.Data.Apply.{Progress, apply_delta}
use render_studio_kit.Data.Conflict.{
  ensured, apply_delta_skipped, apply_delta_visible, apply_delta_merged,
}
use render_studio_kit.Data.Process.{apply_spec, begin_processing}
use render_studio_kit.Data.EarlyAcknowledge.{acknowledgement, edited_twice, apply_spec_early}
use render_studio_kit.Data.Reachable.{created, creates, sets, Used-IsValid}
use render_studio_kit.Examples.World.{number, token_list, world, layer_data, edited_data}

layer_data-IsValid : IsValid layer_data
unfolding find_field ℕ_discrete
layer_data-IsValid = record { stored = (tt, ((refl, (refl, tt)), tt)); pending = tt }

edited_data-IsValid : IsValid edited_data
unfolding find_field ℕ_discrete
edited_data-IsValid = record { stored = (tt, ((refl, (refl, tt)), tt)); pending = tt }

-- A new value for the field 7 of the primitive 1
set_test : get_field_value (set layer_data 1 7 (number 71)) 1 7 ≡ some (number 71)
unfolding get_field_value set set_const write_field_value put_field write_field_value_delta
    delta_spec Dict.find Dict.put find_field ℕ_discrete
set_test = refl

get_field_value-set_example :
    get_field_value (set layer_data 1 7 (number 71)) 1 7 ≡ some (number 71)
unfolding has_spec Dict.find ℕ_discrete
get_field_value-set_example = get_field_value-set layer_data 1 1 7 7 (number 71) layer_data-IsValid

set_recorded_example :
    (pending_value (set layer_data 1 7 (number 71)) 1 7 ≡ some (number 71))
    × (is_unacknowledged (set layer_data 1 7 (number 71)) 1 ≡ true)
unfolding has_spec Dict.find ℕ_discrete
set_recorded_example = set_recorded layer_data 1 1 7 7 (number 71) refl refl refl refl

-- The state in which a remote update meets an own edit of the primitive 1
abbrev own_edit : Progress
own_edit = record { state = edited_data; notices = []; owners = [] }

apply_delta_skipped_example :
    (apply_delta forwarding 1 7 (number 72) 2 own_edit).state
    ≡ ensured forwarding forwarding-Forwards edited_data 1 2
unfolding Dict.find ℕ_discrete
apply_delta_skipped_example =
    apply_delta_skipped forwarding forwarding-Forwards 1 7 (number 72) 2 own_edit refl refl
      (omega arith)

apply_delta_visible_example :
    get_field_value (apply_delta forwarding 9 7 (number 72) 3 own_edit).state 9 7 ≡ some (number 72)
unfolding Dict.find ℕ_discrete
apply_delta_visible_example =
    apply_delta_visible forwarding forwarding-Forwards 9 7 (number 72) 3 own_edit
      edited_data-IsValid refl (omega arith) (omega arith) (omega arith) refl

apply_delta_merged_example :
    get_field_value (apply_delta forwarding 1 4 (token_list (21 ∷ 22 ∷ [])) 2 own_edit).state 1 4
    ≡ some (token_list (21 ∷ 22 ∷ 20 ∷ []))
unfolding Dict.find ℕ_discrete get_spec_type get get_field_value find_field deduplicate
    deduplicate_from contains
apply_delta_merged_example =
    apply_delta_merged forwarding forwarding-Forwards 1 (token_list (21 ∷ 22 ∷ []))
      (token_list (21 ∷ 22 ∷ 20 ∷ [])) 2 own_edit edited_data-IsValid refl (omega arith)
      (omega arith) refl refl

apply_spec_early_example :
    let e = edited_twice layer_data 1 7 (number 71) (number 72) in
    let a = apply_spec forwarding 1 acknowledgement (begin_processing e) in
    (is_unacknowledged e 1 ≡ true)
    × (pending_value a.state 1 7 ≡ some (number 72))
    × (is_unacknowledged a.state 1 ≡ false)
    × (get_field_value (apply_delta forwarding 1 7 (number 73) 2 a).state 1 7 ≡ some (number 73))
unfolding has_spec Dict.find ℕ_discrete
apply_spec_early_example =
    apply_spec_early forwarding layer_data 1 7 (number 71) (number 72) (number 73) 2
      forwarding-Forwards layer_data-IsValid refl refl refl refl refl (omega arith) (omega arith)
      (omega arith)

Used-IsValid_example : IsValid (set (create_spec (init ⦃usd = world⦄) 1 2) 1 7 (number 70))
Used-IsValid_example =
    Used-IsValid forwarding forwarding-Forwards (sets 1 7 (number 70) (creates 1 2 created))
