-- ===== src/Data/Delivery.antt =====
-- Sources/Resolver/Data.cpp, ProcessRemoteUpdates: which updates are applied, in which order, and
-- that the loop stops only at a gap.
use render_studio_kit.Shared.{
  ℕ, zero, suc, ◌≤◌, ◌≡◌, refl, ◌∙◌, sym, ap, true, false, inl, inr, List, [], ◌∷◌, Option, none,
  some, arith, length, Option-cases, nat_key,
}
use render_studio_kit.Shared.Dict
use render_studio_kit.Shared.Dict.{find-erase, length-erase-lt, find_of_length}
use render_studio_kit.Usd.{Usd}
use render_studio_kit.Data.State.{HashTable, Data}
use render_studio_kit.Data.Layer.{Layer, Forwards}
use render_studio_kit.Data.Apply.{Progress}
use render_studio_kit.Data.Process.{
  apply_deltas, next_sequence, commit, drain, begin_processing, end_processing, drain_queue,
  process_remote_updates,
}
use render_studio_kit.Data.Frame.{Frame, apply_deltas-Frame}

module _ ⦃usd : Usd⦄ where
  -- Numbered updates
  abbrev pub Updates : Type 0
  Updates = List (ℕ × HashTable)

  -- The update that the queue holds under a number
  abbrev pub queued : ℕ → Updates → Option HashTable
  queued = Dict.find ⦃key = nat_key⦄

  -- The numbers count up from the given one.
  abbrev pub Consecutive : ℕ → Updates → Type 0
  Consecutive n [] = Unit {0}
  Consecutive n ((k, deltas) ∷ us) = (k ≡ n) × Consecutive (next_sequence n) us

  -- The updates are in the queue under their numbers.
  abbrev pub AllQueued : Updates → Updates → Type 0
  AllQueued q [] = Unit {0}
  AllQueued q ((k, deltas) ∷ us) = (queued k q ≡ some deltas) × AllQueued q us

  -- The updates applied one after the other
  unfoldable pub run_updates : Layer → Updates → Progress → Progress
  run_updates layer [] st = st
  run_updates layer ((k, deltas) ∷ us) st =
      run_updates layer us (commit k (apply_deltas layer deltas st))

  -- The updates that follow without a gap
  ready : ℕ → ℕ → Updates → Updates
  ready zero next q = []
  ready (suc fuel) next q = elim (queued next q) [
    | none ↦ []
    | some deltas ↦
        (next, deltas) ∷ ready fuel (next_sequence next) (Dict.erase ⦃key = nat_key⦄ next q)
  ]

  ready-Consecutive : (fuel next : ℕ) (q : Updates) → Consecutive next (ready fuel next q)
  unfolding ready
  ready-Consecutive zero next q = tt
  ready-Consecutive (suc fuel) next q =
      ground
        (arith, ready-Consecutive fuel (next_sequence next) (Dict.erase ⦃key = nat_key⦄ next q))

  AllQueued-erase :
      (k : ℕ) (q us : Updates) → AllQueued (Dict.erase ⦃key = nat_key⦄ k q) us → AllQueued q us
  AllQueued-erase k q [] h = tt
  AllQueued-erase k q ((j, deltas) ∷ us) h =
      ground (arith, AllQueued-erase k q us h.1, find-erase ⦃key = nat_key⦄ j k q)

  ready-AllQueued : (fuel next : ℕ) (q : Updates) → AllQueued q (ready fuel next q)
  unfolding ready
  ready-AllQueued zero next q = tt
  ready-AllQueued (suc fuel) next q =
      let rest = Dict.erase ⦃key = nat_key⦄ next q in
      let us = ready fuel (next_sequence next) rest in
      ground (arith, AllQueued-erase next q us (ready-AllQueued fuel (next_sequence next) rest))

  module _ (layer : Layer) (forwards : Forwards layer) where
    -- The queue and the number after one round of the loop
    pub commit-queue :
        (next : ℕ) (deltas : HashTable) (st : Progress)
        → st.state.is_processing_remote_updates ≡ true
        → let st' = commit next (apply_deltas layer deltas st) in
          (st'.state.remote_deltas_queue
            ≡ Dict.erase ⦃key = nat_key⦄ next st.state.remote_deltas_queue)
          × (st'.state.is_processing_remote_updates ≡ true)
          × (st'.state.latest_applied_sequence ≡ next)
          × (st'.state.local_deltas ≡ st.state.local_deltas)
          × (st'.state.is_loaded ≡ st.state.is_loaded)
    unfolding commit
    commit-queue next deltas st h =
        let f : Frame st.state (apply_deltas layer deltas st).state =
          apply_deltas-Frame layer forwards deltas st h in
        ground arith

    drain-run_updates :
        (fuel next : ℕ) (st : Progress)
        → st.state.is_processing_remote_updates ≡ true
        → drain layer fuel next st
          ≡ run_updates layer (ready fuel next st.state.remote_deltas_queue) st
    unfolding drain run_updates ready
    drain-run_updates zero next st h = refl
    drain-run_updates (suc fuel) next st h =
        elim (Option-cases (queued next st.state.remote_deltas_queue)) [
          | inl e ↦ ground arith
          | inr (deltas, e) ↦
              let st' = commit next (apply_deltas layer deltas st) in
              let c = commit-queue next deltas st h in
              ground (arith, c.0, drain-run_updates fuel (next_sequence next) st' c.1)
        ]

    -- Where the loop stops: the next number is not in the queue.
    record Stopped (st r : Progress) : Type 0 where
      gap :
          queued (next_sequence r.state.latest_applied_sequence) r.state.remote_deltas_queue ≡ none
      kept_deltas : r.state.local_deltas ≡ st.state.local_deltas
      kept_loaded : r.state.is_loaded ≡ st.state.is_loaded

    drain-Stopped :
        (fuel next : ℕ) (st : Progress)
        → length st.state.remote_deltas_queue ≤ fuel
        → next ≡ next_sequence st.state.latest_applied_sequence
        → st.state.is_processing_remote_updates ≡ true
        → Stopped st (drain layer fuel next st)
    unfolding drain
    drain-Stopped zero next st few num h = record {
      gap = find_of_length ⦃key = nat_key⦄ _ st.state.remote_deltas_queue few;
      kept_deltas = refl;
      kept_loaded = refl;
    }
    drain-Stopped (suc fuel) next st few num h =
        elim (Option-cases (queued next st.state.remote_deltas_queue)) [
          | inl e ↦
              rw (e, drain) (record { gap = rw (← num) e; kept_deltas = refl; kept_loaded = refl })
          | inr (deltas, e) ↦
              let st' = commit next (apply_deltas layer deltas st) in
              let c = commit-queue next deltas st h in
              let shorter =
                length-erase-lt ⦃key = nat_key⦄ next deltas st.state.remote_deltas_queue e in
              let r : Stopped st' (drain layer fuel (next_sequence next) st') =
                drain-Stopped fuel (next_sequence next) st' (omega (arith, ap length c.0, shorter))
                  (ap next_sequence (sym c.2)) c.1 in
              rw (e, drain)
                (record {
                  gap = r.gap;
                  kept_deltas = r.kept_deltas ∙ c.3;
                  kept_loaded = r.kept_loaded ∙ c.4;
                })
        ]

    -- ProcessRemoteUpdates applies queued updates, one after the other, by consecutive numbers from
    -- the one after the latest applied, and stops only where the next number is not in the queue.
    -- The own edits that wait to be sent stay as they are.
    pub process_remote_updates-in_order :
        (d : Data)
        → let e = (process_remote_updates layer d).0 in
          ((us : Updates) × Consecutive (next_sequence d.latest_applied_sequence) us
            × AllQueued d.remote_deltas_queue us
            × (e ≡ end_processing (run_updates layer us (begin_processing d))))
          × (queued (next_sequence e.latest_applied_sequence) e.remote_deltas_queue ≡ none)
          × (e.local_deltas ≡ d.local_deltas)
          × (e.is_loaded ≡ d.is_loaded)
          × (e.is_processing_remote_updates ≡ false)
    unfolding process_remote_updates drain_queue begin_processing end_processing
    process_remote_updates-in_order d =
        let q = d.remote_deltas_queue in
        let n = next_sequence d.latest_applied_sequence in
        let st = begin_processing d in
        let r : Stopped st (drain layer (length q) n st) =
          drain-Stopped (length q) n st (omega arith) refl refl in
        (
          (
            ready (length q) n q,
            ready-Consecutive (length q) n q,
            ready-AllQueued (length q) n q,
            ap end_processing (drain-run_updates (length q) n st refl),
          ),
          r.gap,
          r.kept_deltas,
          r.kept_loaded,
          refl,
        )
