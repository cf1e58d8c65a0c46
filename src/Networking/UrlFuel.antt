-- ===== src/Networking/UrlFuel.antt =====
-- Sources/Networking/Url.cpp: the loop over the query ends.
use render_studio_kit.Shared.{
  ℕ, zero, suc, ◌≤◌, ◌<◌, ◌≡◌, refl, [], ◌∷◌, some, inl, inr, Option-cases, arith, length,
}
use render_studio_kit.Shared.Texts.{Text, split_at, getline}
use render_studio_kit.Networking.Url.{query_items}

split_at-shorter : (d : ℕ) (s : Text) → length ((split_at d s).1) ≤ length s
unfolding split_at
split_at-shorter d [] = omega arith
split_at-shorter d (c ∷ s) = ground (arith, split_at-shorter d s)

getline-shorter :
    (d : ℕ) (s line rest : Text) → getline d s ≡ some (line, rest) → length rest < length s
unfolding getline split_at
getline-shorter d [] line rest e = absurd (ground arith)
getline-shorter d (c ∷ s) line rest e = ground (arith, split_at-shorter d s)

query_items-fuels :
    (m n : ℕ) (s : Text) → length s ≤ m → length s ≤ n → query_items m s ≡ query_items n s
unfolding query_items getline
query_items-fuels zero zero s h k = refl
query_items-fuels zero (suc n) [] h k = refl
query_items-fuels zero (suc n) (c ∷ s) h k = absurd (omega arith)
query_items-fuels (suc m) zero [] h k = refl
query_items-fuels (suc m) zero (c ∷ s) h k = absurd (omega arith)
query_items-fuels (suc m) (suc n) s h k = elim (Option-cases (getline b'=' s)) [
  | inl e ↦ ground arith
  | inr ((key, after), e) ↦ elim (Option-cases (getline b'&' after)) [
    | inl f ↦ ground arith
    | inr ((value, rest), f) ↦ ground (
      arith,
      query_items-fuels m n rest
          (omega
            (arith, getline-shorter b'=' s key after e, getline-shorter b'&' after value rest f))
          (omega
            (arith, getline-shorter b'=' s key after e, getline-shorter b'&' after value rest f)),
    )
  ]
]

-- With as much fuel as the text has bytes the loop over the query reads what it reads with any more.
query_items-enough :
    (fuel : ℕ) (s : Text) → length s ≤ fuel → query_items fuel s ≡ query_items (length s) s
query_items-enough fuel s h = query_items-fuels fuel (length s) s h (omega arith)
