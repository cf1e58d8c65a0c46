-- ===== src/Data/Bracketing.antt =====
-- Sources/Resolver/Data.cpp: the times that bracket a time between the first and the last sample.
use render_studio_kit.Shared.{
  ◌≡◌, ◌≢◌, refl, sym, true, false, List, [], ◌∷◌, Option, some, inl, inr, ◌⊎◌, subst, Bool-cases,
  arith,
}
use render_studio_kit.Shared.Sorted.{IsOrdered}
use render_studio_kit.Usd.{Usd}
use render_studio_kit.Data.TimeSamples.{bracketing_times, bracket, last_time}

module _ ⦃usd : Usd⦄ where
  open usd use {Time, time_key}

  -- A std::set lists its times in ascending order.
  abbrev pub AllLater : Time → List Time → Type 0
  AllLater t [] = Unit {0}
  AllLater t (u ∷ ts) = (time_key.before t u ≡ true) × AllLater t ts

  abbrev pub IsAscending : List Time → Type 0
  IsAscending [] = Unit {0}
  IsAscending (t ∷ ts) = AllLater t ts × IsAscending ts

  abbrev pub IsSample : Time → List Time → Type 0
  IsSample u [] = ⊥
  IsSample u (t ∷ ts) = (u ≡ t) ⊎ IsSample u ts

  -- No sample before the time comes after the lower one, and none after the time before the upper one.
  abbrev pub Brackets : Time → Time → Time → List Time → Type 0
  Brackets time lower upper [] = Unit {0}
  Brackets time lower upper (t ∷ ts) =
      ((time_key.before t time ≡ true → time_key.before lower t ≡ false)
        × (time_key.before time t ≡ true → time_key.before t upper ≡ false))
      × Brackets time lower upper ts

  bracket-next :
      (time previous t : Time) (ts : List Time)
      → time_key.before t time ≡ true
      → bracket time previous (t ∷ ts) ≡ bracket time t ts
  unfolding bracket
  bracket-next time previous t ts e = rw (bracket, e) refl

  bracket-on :
      (time previous t : Time) (ts : List Time)
      → time_key.before t time ≡ false
      → t ≡ time
      → bracket time previous (t ∷ ts) ≡ some (t, t)
  unfolding bracket
  bracket-on time previous t ts e f = ground (arith, e, f)

  bracket-before :
      (time previous t : Time) (ts : List Time)
      → time_key.before t time ≡ false
      → t ≢ time
      → bracket time previous (t ∷ ts) ≡ some (previous, t)
  unfolding bracket
  bracket-before time previous t ts e n = ground (arith, e, n)

  bracketing_times-inside :
      (time first : Time) (samples : List Time)
      → time_key.before first time ≡ true
      → time_key.before time (last_time first samples) ≡ true
      → bracketing_times (first ∷ samples) time ≡ bracket time first samples
  unfolding bracketing_times
  bracketing_times-inside time first samples h k = rw (bracketing_times, h, k) refl

  module _ (ordered : IsOrdered time_key) where
    asymmetric : (a b : Time) → time_key.before a b ≡ true → time_key.before b a ≡ false
    asymmetric a b h = ground (arith, ordered.trans a b a h, ordered.irrefl a)

    -- The times after the upper one
    later-Brackets :
        (time lower upper : Time) (ts : List Time)
        → AllLater upper ts
        → ((u : Time) → time_key.before upper u ≡ true → time_key.before u time ≡ false)
        → Brackets time lower upper ts
    later-Brackets time lower upper [] h k = tt
    later-Brackets time lower upper (u ∷ ts) h k = (
      (λ e. absurd (ground (arith, k u h.0)), λ e. asymmetric upper u h.0),
      later-Brackets time lower upper ts h.1 k,
    )

    -- What bracket finds: a lower sample that is not after the time, and an upper one not before it
    abbrev pub Found : Time → List Time → Option (Time × Time) → Type 0
    Found time samples found =
        (lower : Time) × (upper : Time) × (found ≡ some (lower, upper))
        × (IsSample lower samples × IsSample upper samples)
        × (time_key.before time lower ≡ false)
        × (time_key.before upper time ≡ false)
        × Brackets time lower upper samples

    on_sample :
        (time : Time) (previous : Time) (ts : List Time)
        → time_key.before previous time ≡ true
        → AllLater time ts
        → Found time (previous ∷ time ∷ ts) (some (time, time))
    on_sample time previous ts h k =
        let i = ordered.irrefl time in
        (
          time,
          time,
          refl,
          (inr (inl refl), inr (inl refl)),
          i,
          i,
          (
            (
              λ e. asymmetric previous time h,
              λ e. absurd (ground (arith, asymmetric previous time h)),
            ),
            ((λ e. i, λ e. i), later-Brackets time time time ts k (λ u e. asymmetric time u e)),
          ),
        )

    between :
        (time previous t : Time) (ts : List Time)
        → time_key.before previous time ≡ true
        → time_key.before time t ≡ true
        → AllLater t ts
        → Found time (previous ∷ t ∷ ts) (some (previous, t))
    between time previous t ts h k later = (
      previous,
      t,
      refl,
      (inl refl, inr (inl refl)),
      asymmetric previous time h,
      asymmetric time t k,
      (
        ((λ e. ordered.irrefl previous), λ e. absurd (ground (arith, asymmetric previous time h))),
        (
          ((λ e. absurd (ground (arith, asymmetric time t k))), λ e. ordered.irrefl t),
          later-Brackets time previous t ts later
              (λ u e. asymmetric time u (ordered.trans time t u k e)),
        ),
      ),
    )

    keep_going :
        (time previous t : Time) (ts : List Time) (found : Option (Time × Time))
        → time_key.before previous time ≡ true
        → time_key.before previous t ≡ true
        → time_key.before t time ≡ true
        → Found time (t ∷ ts) found
        → Found time (previous ∷ t ∷ ts) found
    keep_going time previous t ts found h k c (lower, upper, e, (l, m), a, b, all) = (
      lower,
      upper,
      e,
      (inr l, inr m),
      a,
      b,
      (
        (
          (λ f. ground (arith, all.0.0 c, ordered.trans lower previous t)),
          λ f. absurd (ground (arith, asymmetric previous time h)),
        ),
        all,
      ),
    )

    bracket-Found :
        (time previous : Time) (ts : List Time)
        → time_key.before previous time ≡ true
        → time_key.before time (last_time previous ts) ≡ true
        → IsAscending (previous ∷ ts)
        → Found time (previous ∷ ts) (bracket time previous ts)
    unfolding last_time
    bracket-Found time previous [] h k up = absurd (ground (arith, asymmetric previous time h))
    bracket-Found time previous (t ∷ ts) h k up = elim (Bool-cases (time_key.before t time)) [
      | inl c ↦ subst (Found time (previous ∷ t ∷ ts)) (sym (bracket-next time previous t ts c)) (
          keep_going time previous t ts (bracket time t ts) h up.0.0 c
            (bracket-Found time t ts c k up.1))
      | inr c ↦ elim (time_key.eq t time) [
        | yes e ↦ subst (Found time (previous ∷ t ∷ ts)) (sym (bracket-on time previous t ts c e)) (
            subst (λ u. Found time (previous ∷ u ∷ ts) (some (u, u))) (sym e)
              (on_sample time previous ts h (subst (λ u. AllLater u ts) e up.1.0)))
        | no n ↦
            subst (Found time (previous ∷ t ∷ ts)) (sym (bracket-before time previous t ts c n))
              (between time previous t ts h (ordered.total t time n c) up.1.0)
      ]
    ]

    -- For a time strictly between the first and the last of the samples, a lower sample, not after it,
    -- and an upper sample, not before it, are returned, and no sample before the time comes after the
    -- lower one, and none after the time before the upper one.
    pub bracketing_times-Found :
        (time first : Time) (samples : List Time)
        → IsAscending (first ∷ samples)
        → time_key.before first time ≡ true
        → time_key.before time (last_time first samples) ≡ true
        → Found time (first ∷ samples) (bracketing_times (first ∷ samples) time)
    bracketing_times-Found time first samples up h k =
        subst (Found time (first ∷ samples)) (sym (bracketing_times-inside time first samples h k))
          (bracket-Found time first samples h k up)
