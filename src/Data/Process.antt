-- ===== src/Data/Process.antt =====
-- Sources/Resolver/Data.cpp: AccumulateRemoteUpdate and ProcessRemoteUpdates.
use render_studio_kit.Shared.{
  ℕ, zero, suc, ◌+◌, ◌%◌, true, false, List, [], ◌∷◌, Option, none, some, String, is_nil, length,
  size_mod, if◌then◌else◌, nat_key,
}
use render_studio_kit.Shared.Dict
use render_studio_kit.Usd.{Usd, path_key}
use render_studio_kit.Notice.{PrimitiveChanged, deduplicate_notices}
use render_studio_kit.Data.State.{Fields, SpecData, HashTable, Data}
use render_studio_kit.Data.Layer.{Layer}
use render_studio_kit.Data.Apply.{Progress, push_notice, apply_delta}

module _ ⦃usd : Usd⦄ where
  open usd use {SdfPath, SpecType}

  unfoldable pub accumulate_remote_update : Data → HashTable → ℕ → Data
  accumulate_remote_update d deltas sequence = record d {
    remote_deltas_queue = Dict.put ⦃key = nat_key⦄ sequence deltas d.remote_deltas_queue;
  }

  -- The loop over the fields of one delta
  unfoldable pub apply_fields : Layer → SdfPath → SpecType → Fields → Progress → Progress
  apply_fields layer path spec [] st = st
  apply_fields layer path spec ((key, value) ∷ fields) st =
      apply_fields layer path spec fields (apply_delta layer path key value spec st)

  -- One delta: without fields it is an acknowledgement
  unfoldable pub apply_spec : Layer → SdfPath → SpecData → Progress → Progress
  apply_spec layer path delta st =
      if is_nil delta.fields
      then (record st {
        state = record st.state {
          unacknowledged_fields = Dict.erase path st.state.unacknowledged_fields;
        };
      })
      else push_notice path false (apply_fields layer path delta.spec_type delta.fields st)

  unfoldable pub apply_deltas : Layer → HashTable → Progress → Progress
  apply_deltas layer [] st = st
  apply_deltas layer ((path, delta) ∷ deltas) st =
      apply_deltas layer deltas (apply_spec layer path delta st)

  -- nextRequestedSequence + 1, of std::size_t
  abbrev pub next_sequence : ℕ → ℕ
  next_sequence n = (n + 1) % size_mod

  -- The update with this number is done
  unfoldable pub commit : ℕ → Progress → Progress
  commit next st = record st {
    state = record st.state {
      latest_applied_sequence = next;
      remote_deltas_queue = Dict.erase ⦃key = nat_key⦄ next st.state.remote_deltas_queue;
    };
  }

  -- The while loop, on fuel
  unfoldable pub drain : Layer → ℕ → ℕ → Progress → Progress
  drain layer zero next st = st
  drain layer (suc fuel) next st =
      elim (Dict.find ⦃key = nat_key⦄ next st.state.remote_deltas_queue) [
        | none ↦ st
        | some deltas ↦
            drain layer fuel (next_sequence next) (commit next (apply_deltas layer deltas st))
      ]

  -- The state in which the loop starts
  unfoldable pub begin_processing : Data → Progress
  begin_processing d = record {
    state = record d { is_processing_remote_updates = true };
    notices = [];
    owners = [];
  }

  unfoldable pub end_processing : Progress → Data
  end_processing st = record st.state { is_processing_remote_updates = false }

  -- The loop as it is started. Every round takes an update out of the queue, so the length of the
  -- queue is fuel enough.
  unfoldable pub drain_queue : Layer → Data → Progress
  drain_queue layer d =
      drain layer (length d.remote_deltas_queue) (next_sequence d.latest_applied_sequence)
        (begin_processing d)

  -- The data, the PrimitiveChanged notices sent and the OwnerChanged notices sent
  unfoldable pub process_remote_updates :
      Layer → Data → Data × List PrimitiveChanged × List (SdfPath × Option String)
  process_remote_updates layer d =
      let st = drain_queue layer d in (end_processing st, deduplicate_notices st.notices, st.owners)
