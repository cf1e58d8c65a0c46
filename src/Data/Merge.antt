-- ===== src/Data/Merge.antt =====
-- Sources/Resolver/Data.cpp, ApplyDelta: the merge of two lists of children.
use render_studio_kit.Shared.{Bool, true, false, List, [], ◌∷◌, ◌++◌, ite, if◌then◌else◌}

module _ {A : Type 0} (dec : Discrete A) where
  -- seen.find(item) != seen.end()
  unfoldable pub contains : List A → A → Bool
  contains [] a = false
  contains (x ∷ xs) a = ite (dec x a) true (contains xs a)

  -- The loop that removes duplicates, with the set of the items seen so far
  unfoldable pub deduplicate_from : List A → List A → List A
  deduplicate_from seen [] = []
  deduplicate_from seen (x ∷ xs) =
      let fresh = x ∷ deduplicate_from (x ∷ seen) xs in
      let old = deduplicate_from seen xs in if contains seen x then old else fresh

  unfoldable pub deduplicate : List A → List A
  deduplicate xs = deduplicate_from [] xs

  -- `merged`: the order depends on whether an own edit waits for its acknowledgement.
  unfoldable pub merged : Bool → List A → List A → List A
  merged unacknowledged_yet remote local =
      if unacknowledged_yet then remote ++ local else local ++ remote
