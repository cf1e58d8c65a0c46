-- ===== src/Data/Children.antt =====
-- Sources/Resolver/Data.cpp, ApplyDelta: what the merge of two lists of children holds.
use render_studio_kit.Shared.{
  ◌≡◌, refl, ◌∙◌, inl, inr, Bool, true, false, ◌||◌, List, [], ◌∷◌, ◌++◌, arith, Bool-cases,
  if◌then◌else◌,
}
use render_studio_kit.Data.Merge.{contains, deduplicate_from, deduplicate, merged}

module _ {A : Type 0} (dec : Discrete A) where
  -- No item occurs twice.
  abbrev pub Distinct : List A → Type 0
  Distinct [] = Unit {0}
  Distinct (x ∷ xs) = (contains dec xs x ≡ false) × Distinct xs

  contains-append :
      (xs ys : List A) (a : A)
      → contains dec (xs ++ ys) a ≡ (contains dec xs a || contains dec ys a)
  unfolding contains
  contains-append [] ys a = refl
  contains-append (x ∷ xs) ys a = ground (arith, contains-append xs ys a)

  contains-deduplicate_from :
      (seen xs : List A) (a : A)
      → contains dec (deduplicate_from dec seen xs) a
        ≡ (if contains dec seen a then false else contains dec xs a)
  unfolding contains deduplicate_from
  contains-deduplicate_from seen [] a = ground arith
  contains-deduplicate_from seen (x ∷ xs) a =
      ground (arith, contains-deduplicate_from (x ∷ seen) xs a, contains-deduplicate_from seen xs a)

  deduplicate_from-Distinct : (seen xs : List A) → Distinct (deduplicate_from dec seen xs)
  unfolding contains deduplicate_from
  deduplicate_from-Distinct seen [] = tt
  deduplicate_from-Distinct seen (x ∷ xs) = ground (
    arith,
    contains-deduplicate_from (x ∷ seen) xs x,
    deduplicate_from-Distinct (x ∷ seen) xs,
    deduplicate_from-Distinct seen xs,
  )

  deduplicate_from-append :
      (seen xs ys : List A)
      → (rest : List A) × (deduplicate_from dec seen (xs ++ ys)
          ≡ deduplicate_from dec seen xs ++ rest)
  unfolding deduplicate_from
  deduplicate_from-append seen [] ys = (deduplicate_from dec seen ys, refl)
  deduplicate_from-append seen (x ∷ xs) ys = elim (Bool-cases (contains dec seen x)) [
    | inl old ↦ let (rest, e) = deduplicate_from-append seen xs ys in (rest, ground arith)
    | inr fresh ↦ let (rest, e) = deduplicate_from-append (x ∷ seen) xs ys in (rest, ground arith)
  ]

  -- The merged list of children has no duplicates, holds exactly the items of both lists, and begins
  -- with the items of the list that goes first: the remote one while an own edit waits for its
  -- acknowledgement, and the local one otherwise.
  deduplicate-merged :
      (unacknowledged_yet : Bool) (remote local : List A)
      → let m = deduplicate dec (merged dec unacknowledged_yet remote local) in
        Distinct m
        × ((a : A) → contains dec m a ≡ (contains dec remote a || contains dec local a))
        × ((rest : List A) × (m
              ≡ deduplicate dec (if unacknowledged_yet then remote else local) ++ rest))
  unfolding deduplicate merged contains
  deduplicate-merged true remote local = (
    deduplicate_from-Distinct [] (remote ++ local),
    λ a. contains-deduplicate_from [] (remote ++ local) a ∙ contains-append remote local a,
    deduplicate_from-append [] remote local,
  )
  deduplicate-merged false remote local = (
    deduplicate_from-Distinct [] (local ++ remote),
    λ a.
        ground
          (arith, contains-deduplicate_from [] (local ++ remote) a, contains-append local remote a),
    deduplicate_from-append [] local remote,
  )
