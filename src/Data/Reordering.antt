-- ===== src/Data/Reordering.antt =====
-- Sources/Resolver/Data.cpp: the order in which numbered updates arrive does not matter.
use render_studio_kit.Shared.{
  ℕ, zero, suc, ◌≤◌, ◌≡◌, ◌≢◌, true, refl, ◌∙◌, ap, sym, inl, inr, [], ◌∷◌, none, some, arith,
  length, Option-cases, nat_key,
}
use render_studio_kit.Shared.Dict
use render_studio_kit.Shared.Dict.{
  Same, erase-Same, put-Same, put_comm, length-erase-lt, find_of_length,
}
use render_studio_kit.Usd.{Usd}
use render_studio_kit.Notice.{deduplicate_notices}
use render_studio_kit.Data.State.{HashTable, Data}
use render_studio_kit.Data.Layer.{Layer, Forwards}
use render_studio_kit.Data.Apply.{Progress}
use render_studio_kit.Data.Process.{
  accumulate_remote_update, apply_deltas, next_sequence, commit, drain, begin_processing,
  end_processing, drain_queue, process_remote_updates,
}
use render_studio_kit.Data.Delivery.{Updates, queued, commit-queue}
use render_studio_kit.Data.Requeue.{with_queue, requeue, apply_deltas-requeue}

module _ ⦃usd : Usd⦄ where
  abbrev pub SameQueue : Updates → Updates → Type 0
  SameQueue = Same ⦃key = nat_key⦄

  -- Equal but for the representation of the queue
  pub record Agree (a b : Progress) : Type 0 where
    pub same_queue : SameQueue a.state.remote_deltas_queue b.state.remote_deltas_queue
    pub same_rest : b ≡ requeue b.state.remote_deltas_queue a

  module _ (layer : Layer) (forwards : Forwards layer) where
    b-processing :
        (a b : Progress)
        → a.state.is_processing_remote_updates ≡ true
        → Agree a b
        → b.state.is_processing_remote_updates ≡ true
    b-processing a b h g =
        ap (λ (st : Progress). st.state.is_processing_remote_updates) g.same_rest ∙ h

    commit-Agree :
        (n : ℕ) (deltas : HashTable) (a b : Progress)
        → a.state.is_processing_remote_updates ≡ true
        → Agree a b
        → Agree (commit n (apply_deltas layer deltas a)) (commit n (apply_deltas layer deltas b))
    unfolding commit
    commit-Agree n deltas a b h g =
        let qb = b.state.remote_deltas_queue in
        let e : apply_deltas layer deltas b ≡ requeue qb (apply_deltas layer deltas a) =
          ap (apply_deltas layer deltas) g.same_rest
          ∙ apply_deltas-requeue layer forwards qb deltas a in
        let c = (commit-queue layer forwards n deltas a h).0 in
        record {
          same_queue = λ k. rw (e, c) (erase-Same ⦃key = nat_key⦄ n _ qb g.same_queue k);
          same_rest = ground arith;
        }

    pub drain_stop :
        (fuel n : ℕ) (a : Progress)
        → queued n a.state.remote_deltas_queue ≡ none
        → drain layer fuel n a ≡ a
    unfolding drain
    drain_stop zero n a e = refl
    drain_stop (suc fuel) n a e = rw (e, drain)

    stop-Agree :
        (fuel fuel' n : ℕ) (a b : Progress)
        → queued n a.state.remote_deltas_queue ≡ none
        → Agree a b
        → Agree (drain layer fuel n a) (drain layer fuel' n b)
    stop-Agree fuel fuel' n a b e g =
        rw (drain_stop fuel n a e, drain_stop fuel' n b (sym (g.same_queue n) ∙ e)) g

    drain-Agree :
        (fuel fuel' n : ℕ) (a b : Progress)
        → a.state.is_processing_remote_updates ≡ true
        → length a.state.remote_deltas_queue ≤ fuel
        → length b.state.remote_deltas_queue ≤ fuel'
        → Agree a b
        → Agree (drain layer fuel n a) (drain layer fuel' n b)
    unfolding drain
    drain-Agree zero fuel' n a b h few few' g =
        stop-Agree zero fuel' n a b (find_of_length ⦃key = nat_key⦄ n _ few) g
    drain-Agree (suc fuel) zero n a b h few few' g =
        stop-Agree (suc fuel) zero n a b (g.same_queue n ∙ find_of_length ⦃key = nat_key⦄ n _ few')
          g
    drain-Agree (suc fuel) (suc fuel') n a b h few few' g =
        elim (Option-cases (queued n a.state.remote_deltas_queue)) [
          | inl e ↦ stop-Agree (suc fuel) (suc fuel') n a b e g
          | inr (deltas, e) ↦
              let a' = commit n (apply_deltas layer deltas a) in
              let b' = commit n (apply_deltas layer deltas b) in
              let e' : queued n b.state.remote_deltas_queue ≡ some deltas =
                sym (g.same_queue n) ∙ e in
              let h' = b-processing a b h g in
              let c = commit-queue layer forwards n deltas a h in
              let c' = commit-queue layer forwards n deltas b h' in
              let less = length-erase-lt ⦃key = nat_key⦄ n deltas a.state.remote_deltas_queue e in
              let less' = length-erase-lt ⦃key = nat_key⦄ n deltas b.state.remote_deltas_queue e' in
              rw (e, e', drain)
                (drain-Agree fuel fuel' (next_sequence n) a' b' c.1
                  (omega (arith, ap length c.0, less)) (omega (arith, ap length c'.0, less'))
                  (commit-Agree n deltas a b h g))
        ]

    -- Two queues that hold the same updates under the same numbers lead to the same data, but for
    -- the representation of the queue that is left, and to the same notices.
    process-Same :
        (d : Data) (q : Updates)
        → SameQueue d.remote_deltas_queue q
        → let r = process_remote_updates layer d in
          let r' = process_remote_updates layer (with_queue q d) in
          (r'.0 ≡ with_queue r'.0.remote_deltas_queue r.0)
          × SameQueue r.0.remote_deltas_queue r'.0.remote_deltas_queue
          × (r'.1 ≡ r.1)
          × (r'.2 ≡ r.2)
    unfolding process_remote_updates drain_queue begin_processing end_processing
    process-Same d q same =
        let n = next_sequence d.latest_applied_sequence in
        let a = begin_processing d in
        let b = begin_processing (with_queue q d) in
        let g : Agree (drain layer (length d.remote_deltas_queue) n a)
            (drain layer (length q) n b) =
          drain-Agree (length d.remote_deltas_queue) (length q) n a b refl (omega arith)
            (omega arith) (record { same_queue = same; same_rest = refl }) in
        (
          ap end_processing g.same_rest,
          g.same_queue,
          ap (λ (st : Progress). deduplicate_notices st.notices) g.same_rest,
          ap (λ (st : Progress). st.owners) g.same_rest,
        )

  -- The updates received, in the order of their arrival
  unfoldable pub accumulate_all : Data → Updates → Data
  accumulate_all d [] = d
  accumulate_all d ((n, deltas) ∷ us) = accumulate_all (accumulate_remote_update d deltas n) us

  unfoldable pub puts : Updates → Updates → Updates
  puts q [] = q
  puts q ((n, deltas) ∷ us) = puts (Dict.put ⦃key = nat_key⦄ n deltas q) us

  pub accumulate_all-puts :
      (d : Data) (us : Updates) → accumulate_all d us ≡ with_queue (puts d.remote_deltas_queue us) d
  unfolding accumulate_all puts accumulate_remote_update
  accumulate_all-puts d [] = refl
  accumulate_all-puts d ((n, deltas) ∷ us) =
      accumulate_all-puts (accumulate_remote_update d deltas n) us

  -- The same numbered updates in another order
  pub data Reordered : Updates → Updates → Type 0 where
    unchanged : (us : Updates) → Reordered us us
    later :
        {us vs : Updates} (n : ℕ) (v : HashTable)
        → Reordered us vs
        → Reordered ((n, v) ∷ us) ((n, v) ∷ vs)
    swapped :
        (m n : ℕ) (v w : HashTable) (us : Updates)
        → m ≢ n
        → Reordered ((m, v) ∷ (n, w) ∷ us) ((n, w) ∷ (m, v) ∷ us)
    both : {us vs ws : Updates} → Reordered us vs → Reordered vs ws → Reordered us ws

  puts-Same : (us p q : Updates) → SameQueue p q → SameQueue (puts p us) (puts q us)
  unfolding puts
  puts-Same [] p q h = h
  puts-Same ((n, v) ∷ us) p q h = puts-Same us _ _ (put-Same ⦃key = nat_key⦄ n v p q h)

  puts-Reordered :
      {us vs : Updates} (q : Updates) → Reordered us vs → SameQueue (puts q us) (puts q vs)
  unfolding puts
  puts-Reordered q (unchanged us) k = refl
  puts-Reordered q (later n v r) k = puts-Reordered (Dict.put ⦃key = nat_key⦄ n v q) r k
  puts-Reordered q (swapped m n v w us ne) k =
      puts-Same us _ _ (put_comm ⦃key = nat_key⦄ n m w v q (λ e. ne (sym e))) k
  puts-Reordered q (both r s) k = puts-Reordered q r k ∙ puts-Reordered q s k

  -- Numbered updates may arrive in any order before they are processed: the data, but for the
  -- representation of the queue that is left, and the notices sent are the same.
  pub process-Reordered :
      (layer : Layer) (d : Data) {us vs : Updates}
      → Forwards layer
      → Reordered us vs
      → let r = process_remote_updates layer (accumulate_all d us) in
        let r' = process_remote_updates layer (accumulate_all d vs) in
        (r'.0 ≡ with_queue r'.0.remote_deltas_queue r.0)
        × SameQueue r.0.remote_deltas_queue r'.0.remote_deltas_queue
        × (r'.1 ≡ r.1)
        × (r'.2 ≡ r.2)
  process-Reordered layer d {us} {vs} forwards h =
      rw (accumulate_all-puts d us, accumulate_all-puts d vs)
        (process-Same layer forwards (with_queue (puts d.remote_deltas_queue us) d)
          (puts d.remote_deltas_queue vs) (puts-Reordered d.remote_deltas_queue h))
