-- ===== src/Notice/Deduplicated.antt =====
-- Sources/Resolver/Data.cpp, ProcessRemoteUpdates: what the notices sent say of the notices pushed.
use render_studio_kit.Shared.{
  ◌≡◌, ◌≢◌, ◌⊎◌, refl, ◌∙◌, ap, sym, subst, Bool, true, false, ◌&&◌, ◌||◌, List, [], ◌∷◌, ◌++◌,
  Option, none, some, ite, arith, get_or, inl, inr, Option-cases, Bool-cases, if◌then◌else◌,
}
use mathlib.Core.Logic.{if_pos, if_neg}
use mathlib.Core.List.{append-nil, append_assoc}
use render_studio_kit.Shared.Dict
use render_studio_kit.Shared.Dict.{find-put}
use render_studio_kit.Shared.Sorted.{IsOrdered, Sorted, put-Sorted, find-AllAfter}
use render_studio_kit.Usd.{Usd, path_key}
use render_studio_kit.Notice.{
  PrimitiveChanged, Groups, group_notice, group_notices, find_resynched, front, chosen_notice,
  chosen_notices, deduplicate_notices,
}

module _ ⦃usd : Usd⦄ where
  open usd use {SdfPath, path_key as paths}

  -- The notice is about the path.
  abbrev pub concerns : SdfPath → PrimitiveChanged → Bool
  concerns p n = ite (paths.eq n.changed_prim p) true false

  -- The valid notices about a path, in order
  pub valid_about : SdfPath → List PrimitiveChanged → List PrimitiveChanged
  valid_about p [] = []
  valid_about p (n ∷ ns) =
      if n.is_valid && concerns p n then n ∷ valid_about p ns else valid_about p ns

  -- All notices about a path
  pub about : SdfPath → List PrimitiveChanged → List PrimitiveChanged
  about p [] = []
  about p (n ∷ ns) = if concerns p n then n ∷ about p ns else about p ns

  abbrev group_of : SdfPath → Groups → List PrimitiveChanged
  group_of p m = get_or [] (Dict.find p m)

  group_of-group_notice :
      (p : SdfPath) (m : Groups) (n : PrimitiveChanged)
      → group_of p (group_notice m n) ≡ group_of p m ++ valid_about p (n ∷ [])
  unfolding group_notice valid_about
  group_of-group_notice p m n = ground (
    arith,
    find-put p n.changed_prim (group_of n.changed_prim m ++ n ∷ []) m,
    append-nil (group_of p m),
  )

  valid_about-cons :
      (p : SdfPath) (n : PrimitiveChanged) (ns : List PrimitiveChanged)
      → valid_about p (n ∷ ns) ≡ valid_about p (n ∷ []) ++ valid_about p ns
  unfolding valid_about
  valid_about-cons p n ns = ground arith

  group_of-group_notices :
      (p : SdfPath) (m : Groups) (ns : List PrimitiveChanged)
      → group_of p (group_notices m ns) ≡ group_of p m ++ valid_about p ns
  unfolding group_notices valid_about
  group_of-group_notices p m [] = rw append-nil
  group_of-group_notices p m (n ∷ ns) =
      group_of-group_notices p (group_notice m n) ns
      ∙ ap (λ (l : List PrimitiveChanged). l ++ valid_about p ns) (group_of-group_notice p m n)
      ∙ append_assoc (group_of p m) (valid_about p (n ∷ [])) (valid_about p ns)
      ∙ ap (◌++◌ (group_of p m)) (sym (valid_about-cons p n ns))

  -- Every group is about its path.
  abbrev Concerned : SdfPath → List PrimitiveChanged → Type 0
  Concerned p [] = Unit {0}
  Concerned p (n ∷ ns) = (n.changed_prim ≡ p) × Concerned p ns

  abbrev IsGrouped : Groups → Type 0
  IsGrouped [] = Unit {0}
  IsGrouped ((p, ns) ∷ m) = Concerned p ns × IsGrouped m

  Concerned-append :
      (p : SdfPath) (n : PrimitiveChanged) (ns : List PrimitiveChanged)
      → Concerned p ns
      → n.changed_prim ≡ p
      → Concerned p (ns ++ n ∷ [])
  Concerned-append p n [] c h = (h, tt)
  Concerned-append p n (x ∷ ns) c h = (c.0, Concerned-append p n ns c.1 h)

  group_of-Concerned : (p : SdfPath) (m : Groups) → IsGrouped m → Concerned p (group_of p m)
  unfolding Dict.find
  group_of-Concerned p [] g = tt
  group_of-Concerned p ((q, ns) ∷ m) g = elim (paths.eq q p) [
    | yes e ↦ rw (if_pos _ e) (subst (λ r. Concerned r ns) e g.0)
    | no e ↦ rw (if_neg _ e) (group_of-Concerned p m g.1)
  ]

  put-IsGrouped :
      (p : SdfPath) (ns : List PrimitiveChanged) (m : Groups)
      → Concerned p ns
      → IsGrouped m
      → IsGrouped (Dict.put p ns m)
  unfolding Dict.put
  put-IsGrouped p ns [] c g = (c, tt)
  put-IsGrouped p ns ((q, ns') ∷ m) c g = ground (arith, put-IsGrouped p ns m c g.1)

  group_notice-IsGrouped :
      (m : Groups) (n : PrimitiveChanged) → IsGrouped m → IsGrouped (group_notice m n)
  unfolding group_notice
  group_notice-IsGrouped m n g =
      let p = n.changed_prim in
      let ns = group_of p m ++ n ∷ [] in
      ground (
        arith,
        put-IsGrouped p ns m (Concerned-append p n (group_of p m) (group_of-Concerned p m g) refl)
            g,
      )

  group_notices-IsGrouped :
      (m : Groups) (ns : List PrimitiveChanged) → IsGrouped m → IsGrouped (group_notices m ns)
  unfolding group_notices
  group_notices-IsGrouped m [] g = g
  group_notices-IsGrouped m (n ∷ ns) g =
      group_notices-IsGrouped (group_notice m n) ns (group_notice-IsGrouped m n g)

  find_resynched-Concerned :
      (p : SdfPath) (n : PrimitiveChanged) (ns : List PrimitiveChanged)
      → Concerned p ns
      → find_resynched ns ≡ some n
      → n.changed_prim ≡ p
  unfolding find_resynched
  find_resynched-Concerned p n [] c e = cc
  find_resynched-Concerned p n (x ∷ ns) c e = ground (arith, find_resynched-Concerned p n ns c.1)

  chosen_notice-Concerned :
      (p : SdfPath) (n : PrimitiveChanged) (ns : List PrimitiveChanged)
      → Concerned p ns
      → chosen_notice ns ≡ some n
      → n.changed_prim ≡ p
  unfolding chosen_notice front find_resynched
  chosen_notice-Concerned p n [] c e = cc
  chosen_notice-Concerned p n (x ∷ ns) c e = ground (arith, find_resynched-Concerned p n ns c.1)

  chosen_notice-nil : chosen_notice [] ≡ none
  unfolding chosen_notice find_resynched front
  chosen_notice-nil = refl

  abbrev pub to_list : Option PrimitiveChanged → List PrimitiveChanged
  to_list none = []
  to_list (some n) = n ∷ []

  module _ (ordered : IsOrdered paths) where
    group_notices-Sorted :
        (m : Groups) (ns : List PrimitiveChanged) → Sorted m → Sorted (group_notices m ns)
    unfolding group_notices group_notice
    group_notices-Sorted m [] s = s
    group_notices-Sorted m (n ∷ ns) s =
        let p = n.changed_prim in
        group_notices-Sorted (group_notice m n) ns
          (ground (arith, put-Sorted ordered p (group_of p m ++ n ∷ []) m s))

    about-chosen_notices :
        (p : SdfPath) (m : Groups)
        → Sorted m
        → IsGrouped m
        → about p (chosen_notices m) ≡ to_list (chosen_notice (group_of p m))
    unfolding about chosen_notices Dict.find
    about-chosen_notices p [] s g = rw chosen_notice-nil
    about-chosen_notices p ((q, ns) ∷ m) s g = elim (Option-cases (chosen_notice ns)) [
      | inl e ↦ ground (
        arith,
        about-chosen_notices p m s.1 g.1,
        find-AllAfter ordered q m s.0,
        chosen_notice-nil,
      )
      | inr (n, e) ↦ ground (
        arith,
        about-chosen_notices p m s.1 g.1,
        find-AllAfter ordered q m s.0,
        chosen_notice-nil,
        chosen_notice-Concerned q n ns g.0 e,
      )
    ]

    about-deduplicate_notices :
        (p : SdfPath) (ns : List PrimitiveChanged)
        → about p (deduplicate_notices ns) ≡ to_list (chosen_notice (valid_about p ns))
    unfolding deduplicate_notices Dict.find
    about-deduplicate_notices p ns =
        about-chosen_notices p (group_notices [] ns) (group_notices-Sorted [] ns tt)
          (group_notices-IsGrouped [] ns tt)
        ∙ ap (λ (l : List PrimitiveChanged). to_list (chosen_notice l))
            (group_of-group_notices p [] ns)

  -- Some notice of the list is resynched.
  abbrev pub any_resynched : List PrimitiveChanged → Bool
  any_resynched [] = false
  any_resynched (n ∷ ns) = n.was_resynched || any_resynched ns

  find_resynched-any :
      (ns : List PrimitiveChanged)
      → ((find_resynched ns ≡ none) × (any_resynched ns ≡ false))
        ⊎ ((n : PrimitiveChanged) × (find_resynched ns ≡ some n)
            × (n.was_resynched ≡ true)
            × (any_resynched ns ≡ true))
  unfolding find_resynched
  find_resynched-any [] = inl (refl, refl)
  find_resynched-any (n ∷ ns) = elim (Bool-cases n.was_resynched) [
    | inl yes_ ↦ inr (n, rw yes_, yes_, rw yes_)
    | inr not_ ↦ elim (find_resynched-any ns) [
      | inl (e, a) ↦ inl (rw not_ e, rw not_ a)
      | inr (m, e, r, a) ↦ inr (m, rw not_ e, r, rw not_ a)
    ]
  ]

  chosen_notice-cons :
      (n : PrimitiveChanged) (ns : List PrimitiveChanged)
      → (m : PrimitiveChanged) × (chosen_notice (n ∷ ns) ≡ some m)
        × (m.was_resynched ≡ any_resynched (n ∷ ns))
  unfolding chosen_notice front
  chosen_notice-cons n ns = elim (find_resynched-any (n ∷ ns)) [
    | inl (e, a) ↦ (n, ground arith, ground arith)
    | inr (m, e, r, a) ↦ (m, ground arith, ground arith)
  ]

  chosen_notice_cases :
      (ns : List PrimitiveChanged)
      → ((ns ≡ []) × (to_list (chosen_notice ns) ≡ []))
        ⊎ ((m : PrimitiveChanged) × (to_list (chosen_notice ns) ≡ m ∷ [])
            × (ns ≢ [])
            × (m.was_resynched ≡ any_resynched ns))
  chosen_notice_cases [] = inl (refl, ap to_list chosen_notice-nil)
  chosen_notice_cases (n ∷ ns) =
      let (m, e, r) = chosen_notice-cons n ns in inr (m, ap to_list e, (λ h. cc), r)

  -- For each path at most one notice is sent. None is sent if no valid notice about the path was
  -- pushed; otherwise one is, and it says that the primitive was resynched exactly if one of the
  -- valid notices about the path says so.
  pub deduplicate_notices_once :
      (p : SdfPath) (ns : List PrimitiveChanged)
      → IsOrdered paths
      → let sent = about p (deduplicate_notices ns) in
        let pushed = valid_about p ns in
        ((pushed ≡ []) × (sent ≡ []))
        ⊎ ((m : PrimitiveChanged) × (sent ≡ m ∷ [])
            × (pushed ≢ [])
            × (m.was_resynched ≡ any_resynched pushed))
  deduplicate_notices_once p ns ordered =
      rw (about-deduplicate_notices ordered p ns) (chosen_notice_cases (valid_about p ns))
