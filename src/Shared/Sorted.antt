-- ===== src/Shared/Sorted.antt =====
-- A dictionary whose key order is a strict total order keeps its keys sorted, so it has each key once.
use render_studio_kit.Shared.{◌≡◌, ◌≢◌, refl, true, false, List, [], ◌∷◌, none, arith, Key}
use render_studio_kit.Shared.Dict.{find, put}

-- What a container asks of the order of its keys
pub record IsOrdered {K : Type 0} (key : Key K) : Type 0 where
  pub irrefl : (a : K) → key.before a a ≡ false
  pub trans : (a b c : K) → key.before a b ≡ true → key.before b c ≡ true → key.before a c ≡ true
  pub total : (a b : K) → a ≢ b → key.before a b ≡ false → key.before b a ≡ true

module _ {K V : Type 0} ⦃key : Key K⦄ where
  abbrev pub AllAfter : K → List (K × V) → Type 0
  AllAfter k [] = Unit {0}
  AllAfter k ((j, v) ∷ m) = (key.before k j ≡ true) × AllAfter k m

  abbrev pub Sorted : List (K × V) → Type 0
  Sorted [] = Unit {0}
  Sorted ((k, v) ∷ m) = AllAfter k m × Sorted m

  module _ (ordered : IsOrdered key) where
    AllAfter-trans :
        (i k : K) (m : List (K × V)) → key.before i k ≡ true → AllAfter k m → AllAfter i m
    AllAfter-trans i k [] h a = tt
    AllAfter-trans i k ((j, v) ∷ m) h a = (ordered.trans i k j h a.0, AllAfter-trans i k m h a.1)

    put-AllAfter :
        (i k : K) (v : V) (m : List (K × V))
        → key.before i k ≡ true
        → AllAfter i m
        → AllAfter i (put k v m)
    unfolding put
    put-AllAfter i k v [] h a = (h, tt)
    put-AllAfter i k v ((j, w) ∷ m) h a = ground (arith, put-AllAfter i k v m h a.1)

    pub put-Sorted : (k : K) (v : V) (m : List (K × V)) → Sorted m → Sorted (put k v m)
    unfolding put
    put-Sorted k v [] s = (tt, tt)
    put-Sorted k v ((j, w) ∷ m) s =
        ground (
          arith,
          ordered.total k j,
          AllAfter-trans k j m,
          put-AllAfter j k v m,
          put-Sorted k v m s.1,
        )

    pub find-AllAfter : (k : K) (m : List (K × V)) → AllAfter k m → find k m ≡ none
    unfolding find
    find-AllAfter k [] a = refl
    find-AllAfter k ((j, v) ∷ m) a = ground (arith, ordered.irrefl k, find-AllAfter k m a.1)
