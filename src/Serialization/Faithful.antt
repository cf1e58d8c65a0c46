-- ===== src/Serialization/Faithful.antt =====
-- Sources/Serialization/Serialization.cpp and Serialization.h: what is written for the plain types is
-- read back.
use render_studio_kit.Shared.{◌≡◌, List, [], ◌∷◌, some, arith, string_discrete}
use render_studio_kit.Shared.Dict
use render_studio_kit.Shared.Options.{traverse, >>=-eq-some}
use render_studio_kit.Usd.{Usd}
use render_studio_kit.Serialization.Json.{
  JsonLibrary, Reads, Form, Gives, Keeps, IsFaithful, extract, array_form,
}
use render_studio_kit.Serialization.Forms.{
  Plain, IsPlain, bool_form, ListOp, string_form, asset_path_form, vec2_form, vec3_form, enum_form,
  list_op_of, list_op_form, path_form, token_form, specifier_form, variability_form, spec_type_form,
  layer_offset_form, reference_form,
}

module _ ⦃usd : Usd⦄ ⦃json : JsonLibrary⦄ (lib : Reads json) where
  open usd use {SdfPath, Token, SpecType}
  open json use {Json, of_string, as_string, of_array, as_array, of_object, as_object}

  -- Every item is read back.
  abbrev pub AllKeep : {A : Type 0} → Form A → List A → Type 0
  AllKeep form [] = Unit {0}
  AllKeep form (x ∷ xs) = Keeps form x × AllKeep form xs

  traverse-back :
      {A : Type 0} (form : Form A) (xs : List A) (js : List Json)
      → AllKeep form xs
      → traverse form.value_from xs ≡ some js
      → traverse form.value_to js ≡ some xs
  unfolding traverse
  traverse-back form [] js h e = ground arith
  traverse-back form (x ∷ xs) js h e =
      let (j, first, rest) = >>=-eq-some (form.value_from x) _ e in
      let (js', more, whole) = >>=-eq-some (traverse form.value_from xs) _ rest in
      ground (arith, h.0 j first, traverse-back form xs js' h.1 more)

  pub array_form-Keeps :
      {A : Type 0} (form : Form A) (xs : List A) → AllKeep form xs → Keeps (array_form form) xs
  unfolding array_form
  array_form-Keeps form xs h j e =
      let (js, items, whole) = >>=-eq-some (traverse form.value_from xs) _ e in
      ground (arith, lib.reads_array js, traverse-back form xs js h items)

  IsFaithful-AllKeep :
      {A : Type 0} (form : Form A) (xs : List A) → IsFaithful form → AllKeep form xs
  IsFaithful-AllKeep form [] h = tt
  IsFaithful-AllKeep form (x ∷ xs) h = (h x, IsFaithful-AllKeep form xs h)

  pub array_form-IsFaithful :
      {A : Type 0} (form : Form A) → IsFaithful form → IsFaithful (array_form form)
  array_form-IsFaithful form h xs = array_form-Keeps form xs (IsFaithful-AllKeep form xs h)

  pub string_form-IsFaithful : IsFaithful string_form
  unfolding string_form
  string_form-IsFaithful s j e = ground (arith, lib.reads_string s)

  pub bool_form-IsFaithful : IsFaithful bool_form
  unfolding bool_form
  bool_form-IsFaithful b j e = ground (arith, lib.reads_bool b)

  pub asset_path_form-IsFaithful : IsFaithful asset_path_form
  unfolding asset_path_form extract string_form Dict.find string_discrete
  asset_path_form-IsFaithful v j e = ground (
    arith,
    lib.reads_object (("asset", of_string v.asset) ∷ ("resolved", of_string v.resolved) ∷ []),
    lib.reads_string v.asset,
    lib.reads_string v.resolved,
  )

  pub vec2_form-IsFaithful :
      {A : Type 0} (form : Form A) → IsFaithful form → IsFaithful (vec2_form form)
  unfolding vec2_form
  vec2_form-IsFaithful form h (x, y) j e =
      let (jx, ex, rest) = >>=-eq-some (form.value_from x) _ e in
      let (jy, ey, whole) = >>=-eq-some (form.value_from y) _ rest in
      ground (arith, lib.reads_array (jx ∷ jy ∷ []), h x jx ex, h y jy ey)

  pub vec3_form-IsFaithful :
      {A : Type 0} (form : Form A) → IsFaithful form → IsFaithful (vec3_form form)
  unfolding vec3_form
  vec3_form-IsFaithful form h (x, y, z) j e =
      let (jx, ex, rest) = >>=-eq-some (form.value_from x) _ e in
      let (jy, ey, rest') = >>=-eq-some (form.value_from y) _ rest in
      let (jz, ez, whole) = >>=-eq-some (form.value_from z) _ rest' in
      ground (arith, lib.reads_array (jx ∷ jy ∷ jz ∷ []), h x jx ex, h y jy ey, h z jz ez)

  pub enum_form-IsFaithful :
      {N E : Type 0} (form : Form N) (number : E → N) (of : N → E)
      → IsFaithful form
      → ((e : E) → of (number e) ≡ e)
      → IsFaithful (enum_form form number of)
  unfolding enum_form
  enum_form-IsFaithful form number of h back v j e = ground (arith, h (number v) j e, back v)

  -- The lists that were written are given to list_op_of.
  pub list_op_form-list_op_of :
      {A : Type 0} (form : Form A) (v : ListOp A)
      → IsFaithful form
      → Gives
          (list_op_form form)
          v
          (list_op_of v.explicit_items v.prepended_items v.appended_items v.deleted_items)
  unfolding list_op_form extract Dict.find string_discrete
  list_op_form-list_op_of form v h j e =
      let items = array_form form in
      let back = array_form-IsFaithful form h in
      let (j0, e0, r0) = >>=-eq-some (items.value_from v.explicit_items) _ e in
      let (j1, e1, r1) = >>=-eq-some (items.value_from v.added_items) _ r0 in
      let (j2, e2, r2) = >>=-eq-some (items.value_from v.prepended_items) _ r1 in
      let (j3, e3, r3) = >>=-eq-some (items.value_from v.appended_items) _ r2 in
      let (j4, e4, r4) = >>=-eq-some (items.value_from v.deleted_items) _ r3 in
      let (j5, e5, r5) = >>=-eq-some (items.value_from v.ordered_items) _ r4 in
      ground (
        arith,
        lib.reads_object (
            ("explicit", j0)
            ∷ ("added", j1)
            ∷ ("prepended", j2)
            ∷ ("appended", j3)
            ∷ ("deleted", j4)
            ∷ ("ordered", j5)
            ∷ []),
        back v.explicit_items j0 e0,
        back v.added_items j1 e1,
        back v.prepended_items j2 e2,
        back v.appended_items j3 e3,
        back v.deleted_items j4 e4,
        back v.ordered_items j5 e5,
      )

  module _ (plain : Plain) (laws : IsPlain plain) where
    pub path_form-IsFaithful : IsFaithful (path_form plain)
    unfolding path_form
    path_form-IsFaithful p j e =
        ground (arith, lib.reads_string (plain.path_text p), laws.keeps_path p)

    pub token_form-IsFaithful : IsFaithful (token_form plain)
    unfolding token_form
    token_form-IsFaithful t j e =
        ground (arith, lib.reads_string (plain.token_text t), laws.keeps_token t)

    pub specifier_form-IsFaithful : IsFaithful (specifier_form plain)
    unfolding specifier_form
    specifier_form-IsFaithful =
        enum_form-IsFaithful plain.int_form plain.specifier_number plain.specifier_of laws.keeps_int
          laws.keeps_specifier

    pub variability_form-IsFaithful : IsFaithful (variability_form plain)
    unfolding variability_form
    variability_form-IsFaithful =
        enum_form-IsFaithful plain.int_form plain.variability_number plain.variability_of
          laws.keeps_int laws.keeps_variability

    pub spec_type_form-IsFaithful : IsFaithful (spec_type_form plain)
    unfolding spec_type_form
    spec_type_form-IsFaithful =
        enum_form-IsFaithful plain.int_form plain.spec_type_number plain.spec_type_of laws.keeps_int
          laws.keeps_spec_type

    pub layer_offset_form-IsFaithful : IsFaithful (layer_offset_form plain)
    unfolding layer_offset_form extract Dict.find string_discrete
    layer_offset_form-IsFaithful v j e =
        let real = plain.real_form in
        let (j0, e0, r0) = >>=-eq-some (real.value_from v.offset) _ e in
        let (j1, e1, r1) = >>=-eq-some (real.value_from v.scale) _ r0 in
        ground (
          arith,
          lib.reads_object (("offset", j0) ∷ ("scale", j1) ∷ []),
          laws.keeps_real v.offset j0 e0,
          laws.keeps_real v.scale j1 e1,
        )

    pub reference_form-IsFaithful : IsFaithful (reference_form plain)
    unfolding reference_form extract string_form Dict.find string_discrete
    reference_form-IsFaithful v j e =
        let paths = path_form plain in
        let offsets = layer_offset_form plain in
        let (j0, e0, r0) = >>=-eq-some (paths.value_from v.prim) _ e in
        let (j1, e1, r1) = >>=-eq-some (offsets.value_from v.offset) _ r0 in
        ground (
          arith,
          lib.reads_object (("asset", of_string v.asset) ∷ ("prim", j0) ∷ ("offset", j1) ∷ []),
          lib.reads_string v.asset,
          path_form-IsFaithful v.prim j0 e0,
          layer_offset_form-IsFaithful v.offset j1 e1,
        )
