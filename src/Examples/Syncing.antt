-- ===== src/Examples/Syncing.antt =====
-- The theorems on the delivery of remote updates and on notices at concrete inputs.
use render_studio_kit.Shared.{
  ℕ, ◌≡◌, ◌≢◌, ◌⊎◌, true, false, List, [], ◌∷◌, none, arith, nat_key, ltb,
}
use render_studio_kit.Shared.Sorted.{IsOrdered}
use render_studio_kit.Notice.{PrimitiveChanged, primitive_changed, deduplicate_notices}
use render_studio_kit.Notice.Deduplicated.{
  about, valid_about, any_resynched, deduplicate_notices_once,
}
use render_studio_kit.Data.State.{Data, HashTable}
use render_studio_kit.Data.Layer.{forwarding, forwarding-Forwards}
use render_studio_kit.Data.Process.{
  begin_processing, end_processing, next_sequence, process_remote_updates,
}
use render_studio_kit.Data.Delivery.{
  Updates, queued, Consecutive, AllQueued, run_updates, process_remote_updates-in_order,
}
use render_studio_kit.Data.Requeue.{with_queue}
use render_studio_kit.Data.Reordering.{SameQueue, accumulate_all, swapped, process-Reordered}
use render_studio_kit.Examples.World.{number, world, layer_data}

-- An update that sets the field 7 of the primitive 1
abbrev update_to : ℕ → HashTable
update_to n = (1, record { spec_type = 2; fields = (7, number n) ∷ [] }) ∷ []

-- The updates 1 and 3 have arrived, and 2 is missing.
abbrev with_gap : Data
with_gap = record layer_data { remote_deltas_queue = (1, update_to 71) ∷ (3, update_to 73) ∷ [] }

process_remote_updates-in_order_example :
    let e = (process_remote_updates forwarding with_gap).0 in
    ((us : Updates) × Consecutive 1 us
      × AllQueued with_gap.remote_deltas_queue us
      × (e ≡ end_processing (run_updates forwarding us (begin_processing with_gap))))
    × (queued (next_sequence e.latest_applied_sequence) e.remote_deltas_queue ≡ none)
    × (e.local_deltas ≡ [])
    × (e.is_loaded ≡ true)
    × (e.is_processing_remote_updates ≡ false)
process_remote_updates-in_order_example =
    process_remote_updates-in_order forwarding forwarding-Forwards with_gap

abbrev first_second : Updates
first_second = (1, update_to 71) ∷ (2, update_to 72) ∷ []

abbrev second_first : Updates
second_first = (2, update_to 72) ∷ (1, update_to 71) ∷ []

process-Reordered_example :
    let r = process_remote_updates forwarding (accumulate_all layer_data first_second) in
    let r' = process_remote_updates forwarding (accumulate_all layer_data second_first) in
    (r'.0 ≡ with_queue r'.0.remote_deltas_queue r.0)
    × SameQueue r.0.remote_deltas_queue r'.0.remote_deltas_queue
    × (r'.1 ≡ r.1)
    × (r'.2 ≡ r.2)
process-Reordered_example =
    process-Reordered forwarding layer_data forwarding-Forwards
      (swapped 1 2 (update_to 71) (update_to 72) [] (omega arith))

ltb_trans : (a b c : ℕ) → ltb a b ≡ true → ltb b c ≡ true → ltb a c ≡ true
ltb_trans a b c h k = ground arith

ltb_total : (a b : ℕ) → a ≢ b → ltb a b ≡ false → ltb b a ≡ true
ltb_total a b h k = ground arith

ltb_irrefl : (a : ℕ) → ltb a a ≡ false
ltb_irrefl a = ground arith

pub paths-IsOrdered : IsOrdered nat_key
paths-IsOrdered = record { irrefl = ltb_irrefl; trans = ltb_trans; total = ltb_total }

-- A field of the primitive 1 changed, and then the primitive was resynched.
abbrev pushed : List PrimitiveChanged
pushed = primitive_changed 1 false ∷ primitive_changed 1 true ∷ []

deduplicate_notices_once_example :
    ((valid_about 1 pushed ≡ []) × (about 1 (deduplicate_notices pushed) ≡ []))
    ⊎ ((m : PrimitiveChanged) × (about 1 (deduplicate_notices pushed) ≡ m ∷ [])
        × (valid_about 1 pushed ≢ [])
        × (m.was_resynched ≡ any_resynched (valid_about 1 pushed)))
deduplicate_notices_once_example = deduplicate_notices_once 1 pushed paths-IsOrdered
