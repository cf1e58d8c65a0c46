-- ===== src/Downloads/Sizes.antt =====
-- The sizes of the packages of a material: which texts are sizes, and which package is chosen.
use mathlib.Core.Logic.{◌↔◌}
use render_studio_kit.Shared.{
  ℕ, Bool, true, false, ◌≡◌, ◌≢◌, refl, sym, ◌∙◌, ap, ◌⊎◌, inl, inr, Bool-cases, List, [], ◌∷◌,
  ◌++◌, some, if◌then◌else◌, ℕ_discrete, subst, arith,
}
use render_studio_kit.Shared.Options.{>>=-eq-some}
use render_studio_kit.Shared.Texts.{Text, Avoids}
use render_studio_kit.Downloads.Host.{Host}
use render_studio_kit.Downloads.Packages.{prepend, split, Item, scaled, size_of_tokens}
use render_studio_kit.Downloads.Asset.{min_element}
use render_studio_kit.Downloads.Documented.{Each}

-- The tokens joined with the delimiter between them
unfoldable pub joined : ℕ → List Text → Text
joined d [] = []
joined d (t ∷ []) = t
joined d (t ∷ u ∷ ts) = t ++ d ∷ joined d (u ∷ ts)

joined-prepend : (d c : ℕ) (ts : List Text) → ts ≢ [] → joined d (prepend c ts) ≡ c ∷ joined d ts
unfolding joined prepend
joined-prepend d c [] ne = absurd (ne refl)
joined-prepend d c (t ∷ []) ne = refl
joined-prepend d c (t ∷ u ∷ ts) ne = refl

prepend-ne : (c : ℕ) (ts : List Text) → prepend c ts ≢ []
unfolding prepend
prepend-ne c [] e = cc e
prepend-ne c (t ∷ ts) e = cc e

split-ne : (d : ℕ) (s : Text) → split d s ≢ []
unfolding split
split-ne d [] e = cc e
split-ne d (c ∷ s) e = elim (ℕ_discrete c d) [
  | yes p ↦ grind arith
  | no p ↦ grind (arith, prepend-ne c (split d s))
]

joined-empty : (d : ℕ) (ts : List Text) → ts ≢ [] → joined d ([] ∷ ts) ≡ d ∷ joined d ts
unfolding joined
joined-empty d [] ne = absurd (ne refl)
joined-empty d (u ∷ ts) ne = refl

-- The tokens, joined again, are the text.
pub joined-split : (d : ℕ) (s : Text) → joined d (split d s) ≡ s
unfolding split joined
joined-split d [] = refl
joined-split d (c ∷ s) = elim (ℕ_discrete c d) [
  | yes p ↦ ground (arith, joined-empty d (split d s) (split-ne d s), joined-split d s)
  | no p ↦ ground (arith, joined-prepend d c (split d s) (split-ne d s), joined-split d s)
]

prepend-Avoids :
    (d c : ℕ) (ts : List Text) → c ≢ d → Each (Avoids d) ts → Each (Avoids d) (prepend c ts)
unfolding prepend
prepend-Avoids d c [] ne a = ((ne, tt), tt)
prepend-Avoids d c (t ∷ ts) ne a = ((ne, a.0), a.1)

-- No token has the delimiter in it.
pub split-Avoids : (d : ℕ) (s : Text) → Each (Avoids d) (split d s)
unfolding split
split-Avoids d [] = (tt, tt)
split-Avoids d (c ∷ s) = elim (ℕ_discrete c d) [
  | yes p ↦ ground (arith, split-Avoids d s)
  | no p ↦ ground (arith, prepend-Avoids d c (split d s) p (split-Avoids d s))
]

split-token : (d : ℕ) (t : Text) → Avoids d t → split d t ≡ t ∷ []
unfolding split prepend
split-token d [] a = refl
split-token d (c ∷ t) a = ground (arith, a.0, split-token d t a.1)

split-tokens : (d : ℕ) (t s : Text) → Avoids d t → split d (t ++ d ∷ s) ≡ t ∷ split d s
unfolding split prepend
split-tokens d [] s a = ground arith
split-tokens d (c ∷ t) s a = ground (arith, a.0, split-tokens d t s a.1)

module _ ⦃h : Host⦄ where
  open h use {Float, stof, less}

  -- The two tokens of a size
  pub record IsSize (s : Text) (x : Float) : Type 0 where
    pub number : Text
    pub unit : Text
    pub mantissa : Float
    pub text : s ≡ number ++ b' ' ∷ unit
    pub number_Avoids : Avoids b' ' number
    pub unit_Avoids : Avoids b' ' unit
    pub read : stof number ≡ some mantissa
    pub value : scaled unit mantissa ≡ some x

  tokens-IsSize :
      (s : Text) (ts : List Text) (x : Float)
      → joined b' ' ts ≡ s
      → Each (Avoids b' ') ts
      → size_of_tokens ts ≡ some x
      → IsSize s x
  unfolding size_of_tokens joined
  tokens-IsSize s [] x j a e = cc e
  tokens-IsSize s (t ∷ []) x j a e = cc e
  tokens-IsSize s (t ∷ u ∷ []) x j a e =
      let (m, r, v) = >>=-eq-some (stof t) (scaled u) e in
      record {
        number = t;
        unit = u;
        mantissa = m;
        text = sym j;
        number_Avoids = a.0;
        unit_Avoids = a.1.0;
        read = r;
        value = v;
      }
  tokens-IsSize s (t ∷ u ∷ v ∷ ts) x j a e = cc e

  IsSize-tokens : (s : Text) (x : Float) → IsSize s x → size_of_tokens (split b' ' s) ≡ some x
  unfolding size_of_tokens
  IsSize-tokens s x size =
      ap (λ r. size_of_tokens (split b' ' r)) size.text
      ∙ ap size_of_tokens (
          split-tokens b' ' size.number size.unit size.number_Avoids
          ∙ ap (λ ts. size.number ∷ ts) (split-token b' ' size.unit size.unit_Avoids))
      ∙ rw size.read size.value

  -- A text is read as a size exactly when it is a number that std::stof reads, one space, and a unit
  -- that scales the number to the size; any other text is refused.
  size_of_tokens-IsSize :
      (s : Text) (x : Float) → (size_of_tokens (split b' ' s) ≡ some x) ↔ IsSize s x
  size_of_tokens-IsSize s x = (
    tokens-IsSize s (split b' ' s) x (joined-split b' ' s) (split-Avoids b' ' s),
    IsSize-tokens s x,
  )

  -- `less` as std::min_element wants it: no item is less than itself, and what is not less than a
  -- second, which is not less than a third, is not less than the third.
  pub record Ordered : Type 0 where
    pub less_irrefl : (a : Float) → less a a ≡ false
    pub less_asym : (a b : Float) → less a b ≡ true → less b a ≡ false
    pub not_less_trans : (a b c : Float) → less a b ≡ false → less b c ≡ false → less a c ≡ false

  abbrev pub NotLess : Item → Item → Type 0
  NotLess least item = less item.size_mb least.size_mb ≡ false

  abbrev pub Among : Item → List Item → Type 0
  Among item [] = ⊥
  Among item (i ∷ items) = (item ≡ i) ⊎ Among item items

  -- One of the items, and no item is smaller
  abbrev pub Least : Item → List Item → Type 0
  Least r items = Among r items × Each (NotLess r) items

  skip_item :
      (best item : Item) (items : List Item) (r : Item)
      → Among r (best ∷ items)
      → Among r (best ∷ item ∷ items)
  skip_item best item items r (inl e) = inl e
  skip_item best item items r (inr a) = inr (inr a)

  take_item :
      (best item : Item) (items : List Item) (b : Bool)
      → less item.size_mb best.size_mb ≡ b
      → min_element best (item ∷ items)
        ≡ (if b then min_element item items else min_element best items)
  unfolding min_element
  take_item best item items b e = rw e refl

  -- min_element returns one of the items that it is given, and none of them is smaller.
  pub min_element-Least :
      Ordered → (best : Item) (items : List Item) → Least (min_element best items) (best ∷ items)
  unfolding min_element
  min_element-Least ord best [] = (inl refl, (ord.less_irrefl best.size_mb, tt))
  min_element-Least ord best (item ∷ items) = elim (Bool-cases (less item.size_mb best.size_mb)) [
    | inl e ↦
        (let (a, n) = min_element-Least ord item items in
          let r = min_element item items in
          subst (λ x. Least x (best ∷ item ∷ items)) (sym (take_item best item items true e))
            (
              inr a,
              (
                ord.not_less_trans best.size_mb item.size_mb r.size_mb
                    (ord.less_asym item.size_mb best.size_mb e) n.0,
                n,
              ),
            ))
    | inr e ↦
        (let (a, n) = min_element-Least ord best items in
          let r = min_element best items in
          subst (λ x. Least x (best ∷ item ∷ items)) (sym (take_item best item items false e))
            (
              skip_item best item items r a,
              (n.0, (ord.not_less_trans item.size_mb best.size_mb r.size_mb e n.0, n.1)),
            ))
  ]
