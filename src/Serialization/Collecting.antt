-- ===== src/Serialization/Collecting.antt =====
-- Sources/Serialization/Api.cpp: updates that are read in the order of their paths are collected as they
-- come.
use render_studio_kit.Shared.{
  true, ◌≡◌, refl, ◌∙◌, sym, List, [], ◌∷◌, ◌++◌, none, arith, string_key,
}
use mathlib.Core.List.{append-nil, append_assoc}
use render_studio_kit.Shared.Dict
use render_studio_kit.Shared.Sorted.{IsOrdered, Sorted, AllAfter}
use render_studio_kit.Usd.{Usd, path_key}
use render_studio_kit.Serialization.Api.{SpecData}
use render_studio_kit.Serialization.Json.{JsonLibrary}
use render_studio_kit.Serialization.Events.{add_update, collect}

module _ ⦃usd : Usd⦄ ⦃json : JsonLibrary⦄ (ordered : IsOrdered usd.path_key) where
  open usd use {SdfPath}

  -- The path comes after all the others.
  abbrev IsAfter : SdfPath → List (SdfPath × SpecData) → Type 0
  IsAfter p [] = Unit {0}
  IsAfter p ((q, spec) ∷ m) = (usd.path_key.before q p ≡ true) × IsAfter p m

  find-last : (p : SdfPath) (m : List (SdfPath × SpecData)) → IsAfter p m → Dict.find p m ≡ none
  unfolding Dict.find
  find-last p [] h = refl
  find-last p ((q, spec) ∷ m) h = ground (arith, ordered.irrefl p, find-last p m h.1)

  put-last :
      (p : SdfPath) (spec : SpecData) (m : List (SdfPath × SpecData))
      → IsAfter p m
      → Dict.put p spec m ≡ m ++ (p, spec) ∷ []
  unfolding Dict.put
  put-last p spec [] h = refl
  put-last p spec ((q, old) ∷ m) h =
      ground (arith, ordered.irrefl p, ordered.trans p q p, put-last p spec m h.1)

  -- The rest of the list comes after what was collected.
  abbrev AllFollow : List (SdfPath × SpecData) → List (SdfPath × SpecData) → Type 0
  AllFollow m [] = Unit {0}
  AllFollow m ((p, spec) ∷ rest) = IsAfter p m × AllFollow m rest

  IsAfter-append :
      (p q : SdfPath) (spec : SpecData) (m : List (SdfPath × SpecData))
      → IsAfter p m
      → usd.path_key.before q p ≡ true
      → IsAfter p (m ++ (q, spec) ∷ [])
  IsAfter-append p q spec [] h b = (b, tt)
  IsAfter-append p q spec ((r, old) ∷ m) h b = (h.0, IsAfter-append p q spec m h.1 b)

  AllFollow-append :
      (q : SdfPath) (spec : SpecData) (m rest : List (SdfPath × SpecData))
      → AllFollow m rest
      → AllAfter ⦃key = usd.path_key⦄ q rest
      → AllFollow (m ++ (q, spec) ∷ []) rest
  AllFollow-append q spec m [] h a = tt
  AllFollow-append q spec m ((p, s) ∷ rest) h a =
      (IsAfter-append p q spec m h.0 a.0, AllFollow-append q spec m rest h.1 a.1)

  collect-append :
      (rest m : List (SdfPath × SpecData))
      → AllFollow m rest
      → Sorted ⦃key = usd.path_key⦄ rest
      → collect rest m ≡ m ++ rest
  unfolding collect add_update
  collect-append [] m h s = sym (append-nil m)
  collect-append ((p, spec) ∷ rest) m h s =
      rw (collect, add_update, find-last p m h.0, put-last p spec m h.0)
        (collect-append rest (m ++ (p, spec) ∷ []) (AllFollow-append p spec m rest h.1 s.0) s.1
          ∙ append_assoc m ((p, spec) ∷ []) rest)

  AllFollow-nil : (rest : List (SdfPath × SpecData)) → AllFollow [] rest
  AllFollow-nil [] = tt
  AllFollow-nil ((p, spec) ∷ rest) = (tt, AllFollow-nil rest)

  pub collect-same :
      (updates : List (SdfPath × SpecData))
      → Sorted ⦃key = usd.path_key⦄ updates
      → collect updates [] ≡ updates
  collect-same updates s = collect-append updates [] (AllFollow-nil updates) s
