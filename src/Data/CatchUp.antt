-- ===== src/Data/CatchUp.antt =====
-- Sources/Resolver/Data.cpp: updates that arrive without a gap are all applied, in order.
use render_studio_kit.Shared.{
  ℕ, zero, suc, ◌+◌, ◌≤◌, ◌<◌, ◌≡◌, refl, ◌∙◌, ap, true, List, [], ◌∷◌, none, arith, length,
  size_mod, nat_key,
}
use render_studio_kit.Shared.Dict
use render_studio_kit.Shared.Dict.{find-put, find-erase, length-erase-lt, find_of_length}
use render_studio_kit.Usd.{Usd}
use render_studio_kit.Data.State.{HashTable, Data}
use render_studio_kit.Data.Layer.{Layer, Forwards}
use render_studio_kit.Data.Apply.{Progress}
use render_studio_kit.Data.Process.{
  apply_deltas, next_sequence, commit, drain, begin_processing, end_processing, drain_queue,
  process_remote_updates,
}
use render_studio_kit.Data.Delivery.{Updates, queued, AllQueued, run_updates, commit-queue}
use render_studio_kit.Data.Requeue.{with_queue}
use render_studio_kit.Data.Reordering.{drain_stop, accumulate_all, puts, accumulate_all-puts}

module _ ⦃usd : Usd⦄ where
  -- The updates under the numbers k + 1, k + 2 and so on
  abbrev pub numbered_from : ℕ → List HashTable → Updates
  numbered_from k [] = []
  numbered_from k (t ∷ ts) = (k + 1, t) ∷ numbered_from (k + 1) ts

  queued-puts_below :
      (j k : ℕ) (ts : List HashTable) (q : Updates)
      → j ≤ k
      → queued j (puts q (numbered_from k ts)) ≡ queued j q
  unfolding puts
  queued-puts_below j k [] q h = refl
  queued-puts_below j k (t ∷ ts) q h =
      let q' = Dict.put ⦃key = nat_key⦄ (k + 1) t q in
      ground (
        arith,
        queued-puts_below j (k + 1) ts q' (omega arith),
        find-put ⦃key = nat_key⦄ j (k + 1) t q,
      )

  queued-puts_above :
      (j k : ℕ) (ts : List HashTable) (q : Updates)
      → k + length ts < j
      → queued j (puts q (numbered_from k ts)) ≡ queued j q
  unfolding puts
  queued-puts_above j k [] q h = refl
  queued-puts_above j k (t ∷ ts) q h =
      let q' = Dict.put ⦃key = nat_key⦄ (k + 1) t q in
      ground (
        arith,
        queued-puts_above j (k + 1) ts q' (omega arith),
        find-put ⦃key = nat_key⦄ j (k + 1) t q,
      )

  AllQueued-puts :
      (k : ℕ) (ts : List HashTable) (q : Updates)
      → AllQueued (puts q (numbered_from k ts)) (numbered_from k ts)
  unfolding puts
  AllQueued-puts k [] q = tt
  AllQueued-puts k (t ∷ ts) q =
      let q' = Dict.put ⦃key = nat_key⦄ (k + 1) t q in
      (
        queued-puts_below (k + 1) (k + 1) ts q' (omega arith)
            ∙ Dict.find-put_self ⦃key = nat_key⦄ (k + 1) t q,
        AllQueued-puts (k + 1) ts q',
      )

  -- An update with a smaller number may be taken out.
  AllQueued-drop :
      (j k : ℕ) (ts : List HashTable) (q : Updates)
      → j ≤ k
      → AllQueued q (numbered_from k ts)
      → AllQueued (Dict.erase ⦃key = nat_key⦄ j q) (numbered_from k ts)
  AllQueued-drop j k [] q h a = tt
  AllQueued-drop j k (t ∷ ts) q h a = ground (
    arith,
    find-erase ⦃key = nat_key⦄ (k + 1) j q,
    AllQueued-drop j (k + 1) ts q (omega arith) a.1,
  )

  module _ (layer : Layer) (forwards : Forwards layer) where
    -- The loop applies all of the updates, and its last number is that of the last update.
    drain-all :
        (fuel k : ℕ) (ts : List HashTable) (st : Progress)
        → st.state.is_processing_remote_updates ≡ true
        → st.state.latest_applied_sequence ≡ k
        → length st.state.remote_deltas_queue ≤ fuel
        → k + length ts + 1 < size_mod
        → AllQueued st.state.remote_deltas_queue (numbered_from k ts)
        → queued (k + length ts + 1) st.state.remote_deltas_queue ≡ none
        → (drain layer fuel (k + 1) st ≡ run_updates layer (numbered_from k ts) st)
          × ((drain layer fuel (k + 1) st).state.latest_applied_sequence ≡ k + length ts)
    unfolding drain run_updates
    drain-all zero k [] st h num few small a e = (refl, num ∙ omega arith)
    drain-all (suc fuel) k [] st h num few small a e =
        let e' : queued (k + 1) st.state.remote_deltas_queue ≡ none =
          ap (λ n. queued n st.state.remote_deltas_queue) (omega arith) ∙ e in
        rw (drain, e') (refl, num ∙ omega arith)
    drain-all zero k (t ∷ ts) st h num few small a e =
        absurd (cc (find_of_length ⦃key = nat_key⦄ (k + 1) st.state.remote_deltas_queue few))
    drain-all (suc fuel) k (t ∷ ts) st h num few small a e =
        let q = st.state.remote_deltas_queue in
        let st' = commit (k + 1) (apply_deltas layer t st) in
        let c = commit-queue layer forwards (k + 1) t st h in
        let less = length-erase-lt ⦃key = nat_key⦄ (k + 1) t q a.0 in
        let next : next_sequence (k + 1) ≡ k + 1 + 1 = ground arith in
        let r =
          drain-all fuel (k + 1) ts st' c.1 c.2 (omega (arith, ap length c.0, less)) (omega arith)
            (rw c.0 (AllQueued-drop (k + 1) (k + 1) ts q (omega arith) a.1))
            (ground (arith, c.0, find-erase ⦃key = nat_key⦄ (k + 1 + length ts + 1) (k + 1) q)) in
        rw (drain, a.0, next) (r.0, r.1 ∙ omega arith)

    -- All of the updates that arrive without a gap are applied, in order.
    pub process_remote_updates-all :
        (k : ℕ) (ts : List HashTable) (d : Data)
        → d.latest_applied_sequence ≡ k
        → d.remote_deltas_queue ≡ []
        → k + length ts + 1 < size_mod
        → let d' = accumulate_all d (numbered_from k ts) in
          let e = (process_remote_updates layer d').0 in
          (e ≡ end_processing (run_updates layer (numbered_from k ts) (begin_processing d')))
          × (e.latest_applied_sequence ≡ k + length ts)
    unfolding process_remote_updates drain_queue begin_processing end_processing Dict.find
    process_remote_updates-all k ts d num none_waiting small =
        let q = puts d.remote_deltas_queue (numbered_from k ts) in
        let next : next_sequence d.latest_applied_sequence ≡ k + 1 = ground arith in
        let gone : queued (k + length ts + 1) q ≡ none =
          queued-puts_above (k + length ts + 1) k ts d.remote_deltas_queue (omega arith)
          ∙ ap (queued (k + length ts + 1)) none_waiting in
        let r =
          drain-all (length q) k ts (begin_processing (with_queue q d)) refl num (omega arith) small
            (AllQueued-puts k ts d.remote_deltas_queue) gone in
        rw (accumulate_all-puts d (numbered_from k ts), next) (ap end_processing r.0, r.1)

    -- Where the first update is missing, nothing is applied.
    pub process_remote_updates-missing :
        (j k : ℕ) (ts : List HashTable) (d : Data)
        → d.latest_applied_sequence ≡ j
        → d.remote_deltas_queue ≡ []
        → j < k
        → j + 1 < size_mod
        → let e = (process_remote_updates layer (accumulate_all d (numbered_from k ts))).0 in
          (e.table ≡ d.table) × (e.latest_applied_sequence ≡ j)
    unfolding process_remote_updates drain_queue begin_processing end_processing Dict.find
    process_remote_updates-missing j k ts d num none_waiting less small =
        let q = puts d.remote_deltas_queue (numbered_from k ts) in
        let next : next_sequence d.latest_applied_sequence ≡ j + 1 = ground arith in
        let gone : queued (j + 1) q ≡ none =
          queued-puts_below (j + 1) k ts d.remote_deltas_queue (omega arith)
          ∙ ap (queued (j + 1)) none_waiting in
        let stop =
          drain_stop layer forwards (length q) (j + 1) (begin_processing (with_queue q d)) gone in
        rw (accumulate_all-puts d (numbered_from k ts), next)
          (
            ap (λ (st : Progress). st.state.table) stop,
            ap (λ (st : Progress). st.state.latest_applied_sequence) stop ∙ num,
          )
