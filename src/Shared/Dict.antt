-- ===== src/Shared/Dict.antt =====
-- `std::map`, `std::set` and `TfHashMap`: an association list in the order of its keys. A hash map
-- promises no order, so any will do for it.
use mathlib.Core.Path.{subst}
use render_studio_kit.Shared.{
  ◌≤◌, ◌<◌, ◌≡◌, refl, ◌≢◌, ite, List, [], ◌∷◌, Option, none, some, arith, length, if◌then◌else◌,
  Key,
}

module _ {K V : Type 0} ⦃key : Key K⦄ where
  -- m.find(k), m.at(k)
  unfoldable pub find : K → List (K × V) → Option V
  find k [] = none
  find k ((j, v) ∷ m) = ite (key.eq j k) (some v) (find k m)

  -- m[k] = v
  unfoldable pub put : K → V → List (K × V) → List (K × V)
  put k v [] = (k, v) ∷ []
  put k v ((j, w) ∷ m) =
      ite (key.eq j k) ((k, v) ∷ m)
        (if key.before k j then (k, v) ∷ (j, w) ∷ m else (j, w) ∷ put k v m)

  -- m.erase(k)
  unfoldable pub erase : K → List (K × V) → List (K × V)
  erase k [] = []
  erase k ((j, v) ∷ m) = ite (key.eq j k) (erase k m) ((j, v) ∷ erase k m)

  -- Where a lookup answers, and what it answers, after a write.
  pub find-put :
      (j k : K) (v : V) (m : List (K × V))
      → find j (put k v m) ≡ ite (key.eq k j) (some v) (find j m)
  unfolding find put
  find-put j k v [] = refl
  find-put j k v ((i, w) ∷ m) = ground (arith, find-put j k v m)

  pub find-erase :
      (j k : K) (m : List (K × V)) → find j (erase k m) ≡ ite (key.eq k j) none (find j m)
  unfolding find erase
  find-erase j k [] = ground arith
  find-erase j k ((i, w) ∷ m) = ground (arith, find-erase j k m)

  pub length-erase-le : (k : K) (m : List (K × V)) → length (erase k m) ≤ length m
  unfolding erase
  length-erase-le k [] = omega arith
  length-erase-le k ((j, v) ∷ m) = ground (arith, length-erase-le k m)

  pub length-erase-lt :
      (k : K) (v : V) (m : List (K × V)) → find k m ≡ some v → length (erase k m) < length m
  unfolding find erase
  length-erase-lt k v [] h = cc
  length-erase-lt k v ((j, w) ∷ m) h = ground (arith, length-erase-lt k v m, length-erase-le k m)

  -- Two dictionaries that answer every lookup alike.
  abbrev pub Same : List (K × V) → List (K × V) → Type 0
  Same m n = (k : K) → find k m ≡ find k n

  pub erase-Same : (k : K) (m n : List (K × V)) → Same m n → Same (erase k m) (erase k n)
  erase-Same k m n h j = ground (arith, find-erase j k m, find-erase j k n, h j)

  pub put-Same : (k : K) (v : V) (m n : List (K × V)) → Same m n → Same (put k v m) (put k v n)
  put-Same k v m n h j = ground (arith, find-put j k v m, find-put j k v n, h j)

  -- Writes to different keys may be made in either order.
  pub put_comm :
      (j k : K) (v w : V) (m : List (K × V))
      → j ≢ k
      → Same (put j v (put k w m)) (put k w (put j v m))
  put_comm j k v w m ne i = ground (
    arith,
    find-put i j v (put k w m),
    find-put i k w m,
    find-put i k w (put j v m),
    find-put i j v m,
  )

  -- Every value satisfies `P`.
  abbrev pub All : (V → Type 0) → List (K × V) → Type 0
  All P [] = Unit {0}
  All P ((k, v) ∷ m) = P v × All P m

  pub find-All :
      (P : V → Type 0) (k : K) (v : V) (m : List (K × V)) → All P m → find k m ≡ some v → P v
  unfolding find
  find-All P k v [] a h = cc
  find-All P k v ((j, w) ∷ m) a h = elim (key.eq j k) [
    | yes p ↦ subst P (ground arith) a.0
    | no p ↦ find-All P k v m a.1 (ground arith)
  ]

  pub put-All :
      (P : V → Type 0) (k : K) (v : V) (m : List (K × V)) → P v → All P m → All P (put k v m)
  unfolding put
  put-All P k v [] h a = (h, tt)
  put-All P k v ((j, w) ∷ m) h a = ground (arith, put-All P k v m h a.1)

  pub erase-All : (P : V → Type 0) (k : K) (m : List (K × V)) → All P m → All P (erase k m)
  unfolding erase
  erase-All P k [] a = tt
  erase-All P k ((j, w) ∷ m) a = ground (arith, erase-All P k m a.1)

  pub find_of_length : (k : K) (m : List (K × V)) → length m ≤ 0 → find k m ≡ none
  unfolding find
  find_of_length k [] h = refl
  find_of_length k ((j, v) ∷ m) h = absurd (omega arith)

  pub find-put_self : (k : K) (v : V) (m : List (K × V)) → find k (put k v m) ≡ some v
  find-put_self k v m = ground (arith, find-put k k v m)
