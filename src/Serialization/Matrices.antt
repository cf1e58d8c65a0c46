-- ===== src/Serialization/Matrices.antt =====
-- Sources/Serialization/Serialization.cpp: the JSON form of GfMatrix4d, which is sixteen numbers, row by
-- row. `v[i]` is the row i, and `*v[i]` its first number; the loops run over i = 0 … 15, or over the
-- array that is read.
use render_studio_kit.Shared.{ℕ, zero, suc, ◌+◌, ◌*◌, List, [], ◌∷◌, Option, none, some, get_elem?}
use render_studio_kit.Usd.{Usd}
use render_studio_kit.Serialization.Json.{JsonLibrary, Form}
use render_studio_kit.Serialization.Conversion.{Conversion, converted, returned, accessed, ◌>>=◌}

unfoldable pub set_elem? : {A : Type 0} → List A → ℕ → A → Option (List A)
set_elem? [] i v = none
set_elem? (x ∷ xs) zero v = some (v ∷ xs)
set_elem? (x ∷ xs) (suc i) v = elim (set_elem? xs i v) [ none ↦ none | some ys ↦ some (x ∷ ys) ]

module _ ⦃usd : Usd⦄ ⦃json : JsonLibrary⦄ {A : Type 0} (form : Form A) where
  open json use {Json, of_array, as_array}

  -- result.push_back(*v[i]), for so many rounds from i on
  unfoldable pub read_rows : List A → ℕ → ℕ → Conversion (List Json)
  read_rows m zero i = converted []
  read_rows m (suc rounds) i = do
    x ← accessed (get_elem? m (4 * i))
    j ← returned (form.value_from x)
    js ← read_rows m rounds (i + 1)
    converted (j ∷ js)

  -- *result[i] = value_to(…), where the right side comes first, for the elements from i on
  unfoldable pub write_rows : List A → ℕ → List Json → Conversion (List A)
  write_rows m i [] = converted m
  write_rows m i (j ∷ js) = do
    x ← returned (form.value_to j)
    m' ← accessed (set_elem? m (4 * i) x)
    write_rows m' (i + 1) js

  unfoldable pub matrix_to_json : List A → Conversion Json
  matrix_to_json m = do js ← read_rows m 16 0; converted (of_array js)

  -- `blank` is GfMatrix4d {}.
  unfoldable pub json_to_matrix : List A → Json → Conversion (List A)
  json_to_matrix blank j = do js ← returned (as_array j); write_rows blank 0 js
