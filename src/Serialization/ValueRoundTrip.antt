-- ===== src/Serialization/ValueRoundTrip.antt =====
-- Sources/Serialization/Serialization.cpp: the value that is read is the value that was written.
use render_studio_kit.Shared.{
  ℕ, zero, suc, ◌<◌, ◌≡◌, refl, ◌∙◌, ap, String, List, [], ◌∷◌, some, arith, length,
  string_discrete,
}
use Prim.Native.Nat.{max}
use render_studio_kit.Shared.Dict
use render_studio_kit.Usd.{Usd}
use render_studio_kit.Serialization.Json.{
  JsonLibrary, Reads, Form, Gives, Keeps, extract, array_form,
}
use render_studio_kit.Serialization.Conversion.{
  converted, returned, value_of, ◌>>=◌, >>=-eq-converted, returned-eq-converted, value_of-eq-some,
}
use render_studio_kit.Serialization.Matrices.{matrix_to_json}
use render_studio_kit.Serialization.Matrix.{matrix_to_json-never}
use render_studio_kit.Serialization.Forms.{
  Plain, IsPlain, bool_form, ListOp, string_form, asset_path_form, vec2_form, vec3_form, list_op_of,
  list_op_form, path_form, token_form, specifier_form, variability_form, reference_form,
}
use render_studio_kit.Serialization.Faithful.{
  bool_form-IsFaithful, array_form-IsFaithful, string_form-IsFaithful, asset_path_form-IsFaithful,
  vec2_form-IsFaithful, vec3_form-IsFaithful, list_op_form-list_op_of, path_form-IsFaithful,
  token_form-IsFaithful, specifier_form-IsFaithful, variability_form-IsFaithful,
  reference_form-IsFaithful,
}
use render_studio_kit.Serialization.Values.{
  Kind, vec3d, vec3f, boolean, specifier, token, text, variability, ints, floats, token_array,
  vec2fs, vec3fs, double, float, token_vector, matrix4d, path_list_op, reference_list_op,
  token_list_op, path_vector, int, dictionary, asset_path, value_block, vec3d_value, vec3f_value,
  boolean_value, specifier_value, token_value, text_value, variability_value, ints_value,
  floats_value, token_array_value, vec2fs_value, vec3fs_value, double_value, float_value,
  token_vector_value, matrix4d_value, path_list_op_value, reference_list_op_value,
  token_list_op_value, path_vector_value, int_value, dictionary_value, asset_path_value,
  value_block_value, other_value, VtValue, Entries, no_entries, entry, tested_name, tested_kinds,
  find_kind, remove_spaces, typed, value_to_json, entries_to_members, members_to_entries, read_as,
  reader, json_to_value, value_form,
}

-- Each name leads to its own branch.
find_kind-tested_name : (k : Kind) → find_kind (tested_name k) tested_kinds ≡ some k
unfolding find_kind tested_name string_discrete
find_kind-tested_name vec3d = refl
find_kind-tested_name vec3f = refl
find_kind-tested_name boolean = refl
find_kind-tested_name specifier = refl
find_kind-tested_name token = refl
find_kind-tested_name text = refl
find_kind-tested_name variability = refl
find_kind-tested_name ints = refl
find_kind-tested_name floats = refl
find_kind-tested_name token_array = refl
find_kind-tested_name vec2fs = refl
find_kind-tested_name vec3fs = refl
find_kind-tested_name double = refl
find_kind-tested_name float = refl
find_kind-tested_name token_vector = refl
find_kind-tested_name matrix4d = refl
find_kind-tested_name path_list_op = refl
find_kind-tested_name reference_list_op = refl
find_kind-tested_name token_list_op = refl
find_kind-tested_name path_vector = refl
find_kind-tested_name int = refl
find_kind-tested_name dictionary = refl
find_kind-tested_name asset_path = refl
find_kind-tested_name value_block = refl

module _ ⦃usd : Usd⦄ ⦃json : JsonLibrary⦄ (lib : Reads json) (plain : Plain) where
  open json use {Json, of_string, of_object, as_object, of_bool}
  open plain use {Real}

  -- A list operation comes back as it was.
  abbrev pub IsKeptListOp : {A : Type 0} → ListOp A → Type 0
  IsKeptListOp v =
      list_op_of v.explicit_items v.prepended_items v.appended_items v.deleted_items ≡ v

  abbrev mutual
    -- The list operations in a value come back as they were, and its matrices have sixteen numbers.
    pub IsKept : VtValue plain → Type 0
    IsKept (path_list_op_value v) = IsKeptListOp v
    IsKept (reference_list_op_value v) = IsKeptListOp v
    IsKept (token_list_op_value v) = IsKeptListOp v
    IsKept (matrix4d_value m) = length m ≡ 16
    IsKept (dictionary_value v) = AllKept v
    IsKept _ = Unit {0}

    pub AllKept : Entries plain → Type 0
    AllKept no_entries = Unit {0}
    AllKept (entry key v rest) = IsKept v × AllKept rest

  abbrev mutual
    -- How deep dictionaries are nested in a value
    pub depth : VtValue plain → ℕ
    depth (dictionary_value v) = suc (depth_entries v)
    depth _ = 0

    pub depth_entries : Entries plain → ℕ
    depth_entries no_entries = 0
    depth_entries (entry key v rest) = max (depth v) (depth_entries rest)

  module _ (laws : IsPlain plain) (get_type_name : Kind → String) (blank : List plain.Real)
      (names : (k : Kind) → remove_spaces (get_type_name k) ≡ tested_name k) where
    -- What is written under the name of a kind is read by the branch of that kind.
    json_to_value-typed :
        (fuel : ℕ) (kind : Kind) (content j : Json)
        → typed plain get_type_name blank kind (converted content) ≡ converted j
        → json_to_value plain get_type_name blank (suc fuel) j
          ≡ reader plain get_type_name blank
              (json_to_value plain get_type_name blank fuel)
              kind
              content
    unfolding typed json_to_value extract string_form Dict.find string_discrete
    json_to_value-typed fuel kind content j e = ground (
      arith,
      names kind,
      find_kind-tested_name kind,
      lib.reads_object
          (("type", of_string (remove_spaces (get_type_name kind))) ∷ ("data", content) ∷ []),
      lib.reads_string (remove_spaces (get_type_name kind)),
    )

    -- A type with a form of its own
    keeps-typed :
        {A : Type 0} (fuel : ℕ) (form : Form A) (kind : Kind) (hold : A → VtValue plain) (a b : A)
        (j : Json)
        → ((content : Json)
            → reader plain get_type_name blank
                (json_to_value plain get_type_name blank fuel)
                kind
                content
              ≡ read_as plain get_type_name blank form hold content)
        → Gives form a b
        → typed plain get_type_name blank kind (returned (form.value_from a)) ≡ converted j
        → json_to_value plain get_type_name blank (suc fuel) j ≡ converted (hold b)
    unfolding typed
    keeps-typed fuel form kind hold a b j branch gives e =
        let (content, written, whole) = >>=-eq-converted (returned (form.value_from a)) _ e in
        ground (
          arith,
          json_to_value-typed fuel kind content j whole,
          branch content,
          gives content (returned-eq-converted (form.value_from a) written),
        )

    mutual
      unfolding value_to_json entries_to_members members_to_entries reader typed

      value_keeps :
          (v : VtValue plain) (fuel : ℕ) (j : Json)
          → depth v < fuel
          → IsKept v
          → value_to_json plain get_type_name blank v ≡ converted j
          → json_to_value plain get_type_name blank fuel j ≡ converted v
      value_keeps v zero j deep h e = absurd (omega arith)
      value_keeps (vec3d_value v) (suc fuel) j deep h e =
          keeps-typed fuel (vec3_form plain.real_form) vec3d vec3d_value v v j (λ c. refl)
            (vec3_form-IsFaithful lib plain.real_form laws.keeps_real v) e
      value_keeps (vec3f_value v) (suc fuel) j deep h e =
          keeps-typed fuel (vec3_form plain.float_form) vec3f vec3f_value v v j (λ c. refl)
            (vec3_form-IsFaithful lib plain.float_form laws.keeps_float v) e
      value_keeps (boolean_value v) (suc fuel) j deep h e =
          keeps-typed fuel bool_form boolean boolean_value v v j (λ c. refl)
            (bool_form-IsFaithful lib v) e
      value_keeps (specifier_value v) (suc fuel) j deep h e =
          keeps-typed fuel (specifier_form plain) specifier specifier_value v v j (λ c. refl)
            (specifier_form-IsFaithful lib plain laws v) e
      value_keeps (token_value v) (suc fuel) j deep h e =
          keeps-typed fuel (token_form plain) token token_value v v j (λ c. refl)
            (token_form-IsFaithful lib plain laws v) e
      value_keeps (text_value v) (suc fuel) j deep h e =
          keeps-typed fuel string_form text text_value v v j (λ c. refl)
            (string_form-IsFaithful lib v) e
      value_keeps (variability_value v) (suc fuel) j deep h e =
          keeps-typed fuel (variability_form plain) variability variability_value v v j (λ c. refl)
            (variability_form-IsFaithful lib plain laws v) e
      value_keeps (ints_value v) (suc fuel) j deep h e =
          keeps-typed fuel (array_form plain.int_form) ints ints_value v v j (λ c. refl)
            (array_form-IsFaithful lib plain.int_form laws.keeps_int v) e
      value_keeps (floats_value v) (suc fuel) j deep h e =
          keeps-typed fuel (array_form plain.float_form) floats floats_value v v j (λ c. refl)
            (array_form-IsFaithful lib plain.float_form laws.keeps_float v) e
      value_keeps (token_array_value v) (suc fuel) j deep h e =
          keeps-typed fuel (array_form (token_form plain)) token_array token_array_value v v j
            (λ c. refl)
            (array_form-IsFaithful lib (token_form plain) (token_form-IsFaithful lib plain laws) v)
            e
      value_keeps (vec2fs_value v) (suc fuel) j deep h e =
          keeps-typed fuel (array_form (vec2_form plain.float_form)) vec2fs vec2fs_value v v j
            (λ c. refl)
            (array_form-IsFaithful lib (vec2_form plain.float_form)
              (vec2_form-IsFaithful lib plain.float_form laws.keeps_float) v)
            e
      value_keeps (vec3fs_value v) (suc fuel) j deep h e =
          keeps-typed fuel (array_form (vec3_form plain.float_form)) vec3fs vec3fs_value v v j
            (λ c. refl)
            (array_form-IsFaithful lib (vec3_form plain.float_form)
              (vec3_form-IsFaithful lib plain.float_form laws.keeps_float) v)
            e
      value_keeps (double_value v) (suc fuel) j deep h e =
          keeps-typed fuel plain.real_form double double_value v v j (λ c. refl) (laws.keeps_real v)
            e
      value_keeps (float_value v) (suc fuel) j deep h e =
          keeps-typed fuel plain.float_form float float_value v v j (λ c. refl) (laws.keeps_float v)
            e
      value_keeps (token_vector_value v) (suc fuel) j deep h e =
          keeps-typed fuel (array_form (token_form plain)) token_vector token_vector_value v v j
            (λ c. refl)
            (array_form-IsFaithful lib (token_form plain) (token_form-IsFaithful lib plain laws) v)
            e
      value_keeps (matrix4d_value m) (suc fuel) j deep h e =
          let (content, written, whole) = >>=-eq-converted (matrix_to_json plain.real_form m) _ e in
          absurd (matrix_to_json-never plain.real_form m content h written)
      value_keeps (path_list_op_value v) (suc fuel) j deep h e =
          keeps-typed fuel (list_op_form (path_form plain)) path_list_op path_list_op_value v _ j
            (λ c. refl)
            (list_op_form-list_op_of lib (path_form plain) v (path_form-IsFaithful lib plain laws))
            e
          ∙ ap (λ w. converted (path_list_op_value w)) h
      value_keeps (reference_list_op_value v) (suc fuel) j deep h e =
          keeps-typed fuel (list_op_form (reference_form plain)) reference_list_op
            reference_list_op_value v _ j (λ c. refl)
            (list_op_form-list_op_of lib (reference_form plain) v
              (reference_form-IsFaithful lib plain laws))
            e
          ∙ ap (λ w. converted (reference_list_op_value w)) h
      value_keeps (token_list_op_value v) (suc fuel) j deep h e =
          keeps-typed fuel (list_op_form (token_form plain)) token_list_op token_list_op_value v _ j
            (λ c. refl)
            (list_op_form-list_op_of lib (token_form plain) v
              (token_form-IsFaithful lib plain laws))
            e
          ∙ ap (λ w. converted (token_list_op_value w)) h
      value_keeps (path_vector_value v) (suc fuel) j deep h e =
          keeps-typed fuel (array_form (path_form plain)) path_vector path_vector_value v v j
            (λ c. refl)
            (array_form-IsFaithful lib (path_form plain) (path_form-IsFaithful lib plain laws) v) e
      value_keeps (int_value v) (suc fuel) j deep h e =
          keeps-typed fuel plain.int_form int int_value v v j (λ c. refl) (laws.keeps_int v) e
      value_keeps (dictionary_value v) (suc fuel) j deep h e =
          let (content, written, whole) =
            >>=-eq-converted
              (entries_to_members plain get_type_name blank v >>= (λ o. converted (of_object o))) _
              e in
          let (o, members, same) =
            >>=-eq-converted (entries_to_members plain get_type_name blank v)
              (λ o. converted (of_object o)) written in
          ground (
            arith,
            json_to_value-typed fuel dictionary content j whole,
            lib.reads_object o,
            entries_keep v fuel o (omega arith) h members,
          )
      value_keeps (asset_path_value v) (suc fuel) j deep h e =
          keeps-typed fuel asset_path_form asset_path asset_path_value v v j (λ c. refl)
            (asset_path_form-IsFaithful lib v) e
      value_keeps value_block_value (suc fuel) j deep h e =
          json_to_value-typed fuel value_block _ j e
      value_keeps (other_value name) (suc fuel) j deep h e = absurd (cc e)

      entries_keep :
          (v : Entries plain) (fuel : ℕ) (o : List (String × Json))
          → depth_entries v < fuel
          → AllKept v
          → entries_to_members plain get_type_name blank v ≡ converted o
          → members_to_entries plain get_type_name blank
              (json_to_value plain get_type_name blank fuel)
              o
            ≡ converted v
      entries_keep no_entries fuel o deep h e = ground arith
      entries_keep (entry key v rest) fuel o deep h e =
          let (j, written, more) =
            >>=-eq-converted (value_to_json plain get_type_name blank v) _ e in
          let (o', members, whole) =
            >>=-eq-converted (entries_to_members plain get_type_name blank rest) _ more in
          ground (
            arith,
            value_keeps v fuel j (omega arith) h.0 written,
            entries_keep rest fuel o' (omega arith) h.1 members,
          )

    -- The value that is read, with at least as much fuel as dictionaries are nested and one more, is
    -- the value that was written, if its list operations come back as they were.
    pub value_form-Keeps :
        (fuel : ℕ) (v : VtValue plain)
        → depth v < fuel
        → IsKept v
        → Keeps (value_form plain get_type_name blank fuel) v
    unfolding value_form
    value_form-Keeps fuel v deep h j e = ap value_of (
        value_keeps v fuel j deep h
          (value_of-eq-some (value_to_json plain get_type_name blank v) e))
