-- ===== src/Networking/UrlRoundTrip.antt =====
-- Sources/Networking/Url.cpp: what was encoded is decoded, and what a query holds is read.
use render_studio_kit.Shared.{
  ℕ, zero, suc, ◌≤◌, ◌≡◌, ◌≢◌, refl, ◌∙◌, ap, false, List, [], ◌∷◌, ◌++◌, none, some, length, inl,
  inr, Option-cases, arith, ℕ_discrete, length-append,
}
use render_studio_kit.Shared.Texts.{
  Text, Avoids, codes, strip, contains, replace_after, split_at, getline,
}
use render_studio_kit.Networking.Url.{encode, decode, query_items}

-- The bytes of the rest of %20 are neither a space nor a percent sign.
abbrev IsPlain : Text → Type 0
IsPlain [] = Unit {0}
IsPlain (d ∷ pattern) = (d ≢ 32) × (d ≢ 37) × IsPlain pattern

encode-space : (s : Text) → encode (32 ∷ s) ≡ 37 ∷ 50 ∷ 48 ∷ encode s
unfolding encode replace_after strip
encode-space s = ground arith

encode-other : (c : ℕ) (s : Text) → c ≢ 32 → encode (c ∷ s) ≡ c ∷ encode s
unfolding encode replace_after strip
encode-other c s n = ground arith

strip-encode :
    (pattern s : Text) → IsPlain pattern → strip pattern s ≡ none → strip pattern (encode s) ≡ none
unfolding strip encode replace_after
strip-encode [] s h e = absurd (ground arith)
strip-encode (d ∷ pattern) [] h e = refl
strip-encode (d ∷ pattern) (a ∷ s) h e = elim (ℕ_discrete a 32) [
  | yes f ↦ ground (arith, encode-space s, h)
  | no f ↦ ground (arith, encode-other a s f, h, strip-encode pattern s h.2)
]

decode-escape : (s : Text) → decode (37 ∷ 50 ∷ 48 ∷ s) ≡ 32 ∷ decode s
unfolding decode replace_after strip ℕ_discrete
decode-escape s = refl

decode-other :
    (c : ℕ) (s : Text) → strip (codes "%20") (c ∷ s) ≡ none → decode (c ∷ s) ≡ c ∷ decode s
unfolding decode replace_after
decode-other c s e = rw (decode, replace_after, e) refl

strip-kept :
    (c : ℕ) (s : Text)
    → strip (codes "%20") (c ∷ s) ≡ none
    → strip (codes "%20") (c ∷ encode s) ≡ none
unfolding strip ℕ_discrete
strip-kept c s e = elim (ℕ_discrete 37 c) [
  | yes f ↦ ground (
    arith,
    strip-encode (50 ∷ 48 ∷ []) s
        (λ h. ground arith, λ h. ground arith, (λ h. ground arith, λ h. ground arith, tt)),
  )
  | no n ↦ ground arith
]

-- Decode takes back what Encode does to a text without an escaped space.
decode-encode : (s : Text) → contains (codes "%20") s ≡ false → decode (encode s) ≡ s
unfolding contains encode decode replace_after
decode-encode [] h = refl
decode-encode (c ∷ s) h = elim (ℕ_discrete c 32) [
  | yes e ↦ ground (arith, encode-space s, decode-escape (encode s), decode-encode s)
  | no n ↦ elim (Option-cases (strip (codes "%20") (c ∷ s))) [
    | inr (rest, f) ↦ absurd (ground arith)
    | inl f ↦
        ground
          (arith, encode-other c s n, decode-other c (encode s) (strip-kept c s f), decode-encode s)
  ]
]

-- A query as it is written in a URL: key=value, separated by &
unfoldable print_items : List (Text × Text) → Text
print_items [] = []
print_items ((key, value) ∷ []) = key ++ b'=' ∷ value
print_items ((key, value) ∷ item ∷ items) =
    key ++ b'=' ∷ (value ++ b'&' ∷ print_items (item ∷ items))

-- Keys without an equals sign, and values without an ampersand that are not empty
abbrev AllReadable : List (Text × Text) → Type 0
AllReadable [] = Unit {0}
AllReadable ((key, value) ∷ items) =
    Avoids b'=' key × (Avoids b'&' value × (value ≢ [])) × AllReadable items

split_at-delimited : (d : ℕ) (s t : Text) → Avoids d s → split_at d (s ++ d ∷ t) ≡ (s, t)
unfolding split_at
split_at-delimited d [] t h = ground arith
split_at-delimited d (c ∷ s) t h = ground (arith, split_at-delimited d s t h.1, h.0)

split_at-end : (d : ℕ) (s : Text) → Avoids d s → split_at d s ≡ (s, [])
unfolding split_at
split_at-end d [] h = refl
split_at-end d (c ∷ s) h = ground (arith, split_at-end d s h.1, h.0)

getline-delimited : (d : ℕ) (s t : Text) → Avoids d s → getline d (s ++ d ∷ t) ≡ some (s, t)
unfolding getline
getline-delimited d [] t h = ap some (split_at-delimited d [] t h)
getline-delimited d (c ∷ s) t h = ap some (split_at-delimited d (c ∷ s) t h)

getline-end : (d : ℕ) (s : Text) → Avoids d s → s ≢ [] → getline d s ≡ some (s, [])
unfolding getline
getline-end d [] h n = absurd (n refl)
getline-end d (c ∷ s) h n = ap some (split_at-end d (c ∷ s) h)

query_items-nil : (fuel : ℕ) → query_items fuel [] ≡ []
unfolding query_items getline
query_items-nil zero = refl
query_items-nil (suc fuel) = refl

query_items-last :
    (fuel : ℕ) (key value : Text)
    → Avoids b'=' key
    → Avoids b'&' value
    → value ≢ []
    → query_items (suc fuel) (key ++ b'=' ∷ value) ≡ (key, value) ∷ []
unfolding query_items
query_items-last fuel key value h k n =
    ground
      (arith, getline-delimited b'=' key value h, getline-end b'&' value k n, query_items-nil fuel)

query_items-next :
    (fuel : ℕ) (key value rest : Text)
    → Avoids b'=' key
    → Avoids b'&' value
    → query_items (suc fuel) (key ++ b'=' ∷ (value ++ b'&' ∷ rest))
      ≡ (key, value) ∷ query_items fuel rest
unfolding query_items
query_items-next fuel key value rest h k = ground (
  arith,
  getline-delimited b'=' key (value ++ b'&' ∷ rest) h,
  getline-delimited b'&' value rest k,
)

query_items-printed :
    (fuel : ℕ) (items : List (Text × Text))
    → length items ≤ fuel
    → AllReadable items
    → query_items fuel (print_items items) ≡ items
unfolding print_items
query_items-printed fuel [] enough h = query_items-nil fuel
query_items-printed zero (item ∷ items) enough h = absurd (omega arith)
query_items-printed (suc fuel) ((key, value) ∷ []) enough h =
    query_items-last fuel key value h.0 h.1.0 h.1.1
query_items-printed (suc fuel) ((key, value) ∷ item ∷ items) enough h =
    query_items-next fuel key value (print_items (item ∷ items)) h.0 h.1.0
    ∙ ap (λ rest. (key, value) ∷ rest) (query_items-printed fuel (item ∷ items) (omega arith) h.2)

length-print_items : (items : List (Text × Text)) → length items ≤ length (print_items items)
unfolding print_items
length-print_items [] = omega arith
length-print_items ((key, value) ∷ []) = omega (arith, length-append key (b'=' ∷ value))
length-print_items ((key, value) ∷ item ∷ items) =
    let rest = print_items (item ∷ items) in
    omega (
      arith,
      length-append key (b'=' ∷ (value ++ b'&' ∷ rest)),
      length-append value (b'&' ∷ rest),
      length-print_items (item ∷ items),
    )

-- The loop of Parse reads every item of a query whose keys have no equals sign and whose values are
-- not empty and have no ampersand, in their order.
query_items-print_items :
    (items : List (Text × Text))
    → AllReadable items
    → query_items (length (print_items items)) (print_items items) ≡ items
query_items-print_items items h =
    query_items-printed (length (print_items items)) items (length-print_items items) h
