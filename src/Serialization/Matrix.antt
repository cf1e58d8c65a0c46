-- ===== src/Serialization/Matrix.antt =====
-- Sources/Serialization/Serialization.cpp: the loops over a GfMatrix4d leave the matrix.
use render_studio_kit.Shared.{
  ℕ, zero, suc, ◌+◌, ◌*◌, ◌≤◌, ◌<◌, ◌≡◌, ◌≢◌, refl, String, List, [], ◌∷◌, Option, none, some,
  arith, length, get_elem?, inl, inr, Option-cases,
}
use render_studio_kit.Shared.Options.{traverse, >>=-eq-some}
use render_studio_kit.Usd.{Usd}
use render_studio_kit.Serialization.Json.{JsonLibrary, Reads, Form}
use render_studio_kit.Serialization.Conversion.{converted, undefined, ◌>>=◌, >>=-eq-converted}
use render_studio_kit.Serialization.Forms.{Plain}
use render_studio_kit.Serialization.Matrices.{
  set_elem?, read_rows, write_rows, matrix_to_json, json_to_matrix,
}
use render_studio_kit.Serialization.Values.{Kind, matrix4d_value, typed, value_to_json}

module _ {A : Type 0} where
  length-set_elem? :
      (m : List A) (i : ℕ) (v : A) (m' : List A) → set_elem? m i v ≡ some m' → length m' ≡ length m
  unfolding set_elem?
  length-set_elem? [] i v m' e = cc
  length-set_elem? (x ∷ m) zero v m' e = ground arith
  length-set_elem? (x ∷ m) (suc i) v m' e = elim (Option-cases (set_elem? m i v)) [
    | inl f ↦ ground arith
    | inr (ys, f) ↦ ground (arith, length-set_elem? m i v ys f)
  ]

  set_elem?-past : (m : List A) (i : ℕ) (v : A) → length m ≤ i → set_elem? m i v ≡ none
  unfolding set_elem?
  set_elem?-past [] i v h = refl
  set_elem?-past (x ∷ m) zero v h = absurd (omega arith)
  set_elem?-past (x ∷ m) (suc i) v h = ground (arith, set_elem?-past m i v (omega arith))

  -- Past the last number there is nothing to read.
  get_elem?-past : (m : List A) (i : ℕ) → length m ≤ i → get_elem? m i ≡ none
  get_elem?-past [] i h = refl
  get_elem?-past (x ∷ m) zero h = absurd (omega arith)
  get_elem?-past (x ∷ m) (suc i) h = get_elem?-past m i (omega arith)

  -- What can be done to all items can be done to each.
  traverse-get_elem? :
      {B : Type 0} (f : A → Option B) (xs : List A) (ys : List B) (i : ℕ) (x : A)
      → traverse f xs ≡ some ys
      → get_elem? xs i ≡ some x
      → (y : B) × (f x ≡ some y)
  unfolding traverse
  traverse-get_elem? f [] ys i x e g = cc
  traverse-get_elem? f (z ∷ xs) ys zero x e g =
      let (y, first, rest) = >>=-eq-some (f z) _ e in (y, ground arith)
  traverse-get_elem? f (z ∷ xs) ys (suc i) x e g =
      let (y, first, rest) = >>=-eq-some (f z) _ e in
      let (ys', more, whole) = >>=-eq-some (traverse f xs) _ rest in
      traverse-get_elem? f xs ys' i x more g

module _ ⦃usd : Usd⦄ ⦃json : JsonLibrary⦄ where
  module _ {A : Type 0} (form : Form A) where
    -- More rounds than rows that are left, and every number has a JSON form
    read_rows-past :
        (m : List A) (ks : List json.Json) (rounds i : ℕ)
        → length m ≤ 4 * (i + rounds)
        → traverse form.value_from m ≡ some ks
        → read_rows form m (suc rounds) i ≡ undefined
    unfolding read_rows
    read_rows-past m ks zero i h e = ground (arith, get_elem?-past m (4 * i) (omega arith))
    read_rows-past m ks (suc rounds) i h e = elim (Option-cases (get_elem? m (4 * i))) [
      | inl f ↦ ground arith
      | inr (x, f) ↦
          let (k, g) = traverse-get_elem? form.value_from m ks (4 * i) x e f in
          ground (arith, g, read_rows-past m ks rounds (i + 1) (omega arith) e)
    ]

    -- More rounds than rows that are left: nothing comes out, whatever the numbers are
    read_rows-never :
        (m : List A) (js : List json.Json) (rounds i : ℕ)
        → length m ≤ 4 * (i + rounds)
        → read_rows form m (suc rounds) i ≢ converted js
    unfolding read_rows
    read_rows-never m js zero i h e =
        let past = get_elem?-past m (4 * i) (omega arith) in absurd (ground (arith, past))
    read_rows-never m js (suc rounds) i h e = elim (Option-cases (get_elem? m (4 * i))) [
      | inl f ↦ absurd (ground arith)
      | inr (x, f) ↦ elim (Option-cases (form.value_from x)) [
        | inl g ↦ absurd (ground arith)
        | inr (k, g) ↦
            let rest : (read_rows form m (suc rounds) (i + 1) >>= (λ js'. converted (k ∷ js')))
                ≡ converted js =
              ground arith in
            let (js', more, whole) =
              >>=-eq-converted (read_rows form m (suc rounds) (i + 1)) _ rest in
            read_rows-never m js' rounds (i + 1) (omega arith) more
      ]
    ]

    -- More elements than rows that are left, and every element is a number
    write_rows-past :
        (js : List json.Json) (xs m : List A) (j : json.Json) (i : ℕ)
        → length m ≤ 4 * (i + length js)
        → traverse form.value_to (j ∷ js) ≡ some xs
        → write_rows form m i (j ∷ js) ≡ undefined
    unfolding write_rows traverse
    write_rows-past [] xs m j i h e =
        let (x, first, rest) = >>=-eq-some (form.value_to j) _ e in
        ground (arith, set_elem?-past m (4 * i) x (omega arith))
    write_rows-past (k ∷ js) xs m j i h e =
        let (x, first, rest) = >>=-eq-some (form.value_to j) _ e in
        let (ys, more, whole) = >>=-eq-some (traverse form.value_to (k ∷ js)) _ rest in
        elim (Option-cases (set_elem? m (4 * i) x)) [
          | inl f ↦ ground arith
          | inr (m', f) ↦ ground (
            arith,
            write_rows-past js ys m' k (i + 1) (omega (arith, length-set_elem? m (4 * i) x m' f))
                more,
          )
        ]

    -- A matrix of sixteen numbers is never converted.
    pub matrix_to_json-never :
        (m : List A) (j : json.Json) → length m ≡ 16 → matrix_to_json form m ≢ converted j
    unfolding matrix_to_json
    matrix_to_json-never m j h e =
        let (js, rows, whole) = >>=-eq-converted (read_rows form m 16 0) _ e in
        read_rows-never m js 15 0 (omega arith) rows

  -- A value that holds a matrix of sixteen numbers, all with a JSON form, is not written without an
  -- access outside of the matrix; and a matrix, of sixteen numbers too, is not read from an array of
  -- five elements or more, all of which can be read as numbers, without one: the loops take each index
  -- for that of a row, and there are four rows. No exception comes first.
  pub matrix_outside :
      (lib : Reads json) (plain : Plain) (get_type_name : Kind → String) (blank m : List plain.Real)
      (ks js : List json.Json) (xs : List plain.Real)
      → length m ≡ 16
      → traverse (plain.real_form).value_from m ≡ some ks
      → length blank ≡ 16
      → 4 < length js
      → traverse (plain.real_form).value_to js ≡ some xs
      → (value_to_json plain get_type_name blank (matrix4d_value m) ≡ undefined)
        × (json_to_matrix plain.real_form blank (json.of_array js) ≡ undefined)
  unfolding value_to_json typed matrix_to_json json_to_matrix
  matrix_outside lib plain get_type_name blank m ks [] xs size formed size' many read =
      absurd (omega arith)
  matrix_outside lib plain get_type_name blank m ks (j ∷ js) xs size formed size' many read = (
    ground (arith, read_rows-past plain.real_form m ks 15 0 (omega arith) formed),
    ground (
      arith,
      lib.reads_array (j ∷ js),
      write_rows-past plain.real_form js xs blank j 0 (omega arith) read,
    ),
  )
