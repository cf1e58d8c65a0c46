-- ===== src/Downloads/UuidFormat.antt =====
-- The identifiers have the format of a random UUID.
use render_studio_kit.Shared.{ℕ, zero, suc, ◌≤◌, ◌<◌, ◌≡◌, refl, ◌⊎◌, List, [], ◌∷◌, ◌++◌, arith}
use render_studio_kit.Shared.Texts.{Text}
use render_studio_kit.Downloads.Host.{Host}
use render_studio_kit.Downloads.Uuid.{hex, digits, uuid_of}

-- A lower-case hexadecimal digit
abbrev pub IsHex : ℕ → Type 0
IsHex c = ((b'0' ≤ c) × (c ≤ b'9')) ⊎ ((b'a' ≤ c) × (c ≤ b'f'))

-- 8, 9, a or b
abbrev pub IsVariant : ℕ → Type 0
IsVariant c = ((b'8' ≤ c) × (c ≤ b'9')) ⊎ ((b'a' ≤ c) × (c ≤ b'b'))

-- The characters of a pattern: each satisfies the predicate of its place, and there are no others.
abbrev pub Fits : List (ℕ → Type 0) → Text → Type 0
Fits [] [] = Unit {0}
Fits [] (c ∷ s) = ⊥
Fits (P ∷ Ps) [] = ⊥
Fits (P ∷ Ps) (c ∷ s) = P c × Fits Ps s

abbrev pub hexes : ℕ → List (ℕ → Type 0)
hexes zero = []
hexes (suc n) = IsHex ∷ hexes n

abbrev pub Is : ℕ → ℕ → Type 0
Is d c = c ≡ d

-- xxxxxxxx-xxxx-4xxx-vxxx-xxxxxxxxxxxx
abbrev last_group : List (ℕ → Type 0)
last_group = Is b'-' ∷ hexes 12

abbrev fourth_group : List (ℕ → Type 0)
fourth_group = Is b'-' ∷ IsVariant ∷ (hexes 3 ++ last_group)

abbrev third_group : List (ℕ → Type 0)
third_group = Is b'-' ∷ Is b'4' ∷ (hexes 3 ++ fourth_group)

abbrev second_group : List (ℕ → Type 0)
second_group = Is b'-' ∷ (hexes 4 ++ third_group)

abbrev pub uuid_pattern : List (ℕ → Type 0)
uuid_pattern = hexes 8 ++ second_group

Fits-append :
    (Ps Qs : List (ℕ → Type 0)) (s t : Text) → Fits Ps s → Fits Qs t → Fits (Ps ++ Qs) (s ++ t)
Fits-append [] Qs [] t f g = g
Fits-append [] Qs (c ∷ s) t f g = absurd f
Fits-append (P ∷ Ps) Qs [] t f g = absurd f
Fits-append (P ∷ Ps) Qs (c ∷ s) t f g = (f.0, Fits-append Ps Qs s t f.1 g)

hex-IsHex : (n : ℕ) → n < 16 → IsHex (hex n)
hex-IsHex n small = ground arith

hex-IsVariant : (n : ℕ) → 8 ≤ n → n ≤ 11 → IsVariant (hex n)
hex-IsVariant n low high = ground arith

module _ ⦃h : Host⦄ where
  open h use {Generator, digit, variant}

  -- std::uniform_int_distribution stays within its bounds.
  pub record Uniform : Type 0 where
    pub digit_below : (g : Generator) → (digit g).0 < 16
    pub variant_above : (g : Generator) → 8 ≤ (variant g).0
    pub variant_below : (g : Generator) → (variant g).0 ≤ 11

  digits-Fits : Uniform → (n : ℕ) (g : Generator) → Fits (hexes n) ((digits n g).0)
  unfolding digits
  digits-Fits u zero g = tt
  digits-Fits u (suc n) g = (hex-IsHex (digit g).0 (u.digit_below g), digits-Fits u n (digit g).1)

  -- The text of GenerateUUID has 36 characters: hexadecimal digits in lower case in groups of 8, 4, 4,
  -- 4 and 12 with dashes between them, where the third group begins with 4 and the fourth with 8, 9, a
  -- or b, if the distributions stay within their bounds.
  uuid_of-Fits : Uniform → (g : Generator) → Fits uuid_pattern (uuid_of g)
  unfolding uuid_of
  uuid_of-Fits u g =
      let a = digits 8 g in
      let b = digits 4 a.1 in
      let c = digits 3 b.1 in
      let v = variant c.1 in
      let d = digits 3 v.1 in
      let e = digits 12 d.1 in
      Fits-append (hexes 8) second_group a.0 _ (digits-Fits u 8 g) (
        refl,
        Fits-append (hexes 4) third_group b.0 _ (digits-Fits u 4 a.1) (
          refl,
          (
            refl,
            Fits-append (hexes 3) fourth_group c.0 _ (digits-Fits u 3 b.1) (
              refl,
              (
                hex-IsVariant v.0 (u.variant_above c.1) (u.variant_below c.1),
                Fits-append (hexes 3) last_group d.0 _ (digits-Fits u 3 v.1)
                    (refl, digits-Fits u 12 d.1),
              ),
            ),
          ),
        ),
      )
