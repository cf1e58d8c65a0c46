-- ===== src/Data/Lookup.antt =====
-- Sources/Resolver/Data.cpp: what a field lookup answers after each operation on the table.
use render_studio_kit.Shared.{
  ◌≡◌, inl, inr, [], none, some, ite, arith, Option-cases, if◌then◌else◌,
}
use render_studio_kit.Shared.Dict
use render_studio_kit.Shared.Dict.{find-put, find-erase}
use render_studio_kit.Usd.{Usd, path_key}
use render_studio_kit.Data.State.{
  Data, find_field, has_spec, get_field_value, get_spec_type, fields_at, create_spec, move_spec,
}
use render_studio_kit.Data.Edit.{
  write_field_value, write_field_value_delta, put_field, remove_field, set_const, set, erase,
}
use render_studio_kit.Data.UniqueFields.{
  IsValid, found-UniqueNames, find_field-put_field, find_field-remove_field,
}

module _ ⦃usd : Usd⦄ where
  open usd use {SdfPath, Token, Value, SpecType, is_empty, token_eq, path_key as paths, unknown}

  pub get_field_value-write_field_value :
      (d : Data) (p q : SdfPath) (f g : Token) (v : Value)
      → get_field_value (write_field_value d p f v) q g
        ≡ ite
            (paths.eq p q)
            (ite (token_eq f g) (if has_spec d p then some v else none) (get_field_value d q g))
            (get_field_value d q g)
  unfolding get_field_value write_field_value has_spec
  get_field_value-write_field_value d p q f g v = elim (Option-cases (Dict.find p d.table)) [
    | inl e ↦ ground arith
    | inr (s, e) ↦ ground (
      arith,
      find-put q p (record s { fields = put_field f v s.fields }) d.table,
      find_field-put_field f g v s.fields,
    )
  ]

  -- The delta of a write is kept apart from the table.
  pub table-write_field_value_delta :
      (d : Data) (p : SdfPath) (f : Token) (v : Value)
      → (write_field_value_delta d p f v).table ≡ d.table
  unfolding write_field_value_delta
  table-write_field_value_delta d p f v = ground arith

  get_field_value-erase :
      (d : Data) (p q : SdfPath) (f g : Token)
      → IsValid d
      → get_field_value (erase d p f) q g
        ≡ ite
            (paths.eq p q)
            (ite (token_eq f g) none (get_field_value d q g))
            (get_field_value d q g)
  unfolding get_field_value erase
  get_field_value-erase d p q f g v = elim (Option-cases (Dict.find p d.table)) [
    | inl e ↦ ground arith
    | inr (s, e) ↦ ground (
      arith,
      find-put q p (record s { fields = remove_field f s.fields }) d.table,
      find_field-remove_field f g s.fields (found-UniqueNames p s d.table v.stored e),
    )
  ]

  pub table-set_const :
      (d : Data) (p : SdfPath) (f : Token) (v : Value)
      → (set_const d p f v).table ≡ (write_field_value d p f v).table
  unfolding set_const
  table-set_const d p f v =
      ground (arith, table-write_field_value_delta (write_field_value d p f v) p f v)

  pub get_field_value_of_table :
      (d e : Data) (q : SdfPath) (g : Token)
      → d.table ≡ e.table
      → get_field_value d q g ≡ get_field_value e q g
  unfolding get_field_value
  get_field_value_of_table d e q g h = ground arith

  -- A lookup after Set: only the written field of the written path changes. It has the value if the
  -- path has a spec, and is gone if the value is empty.
  pub get_field_value-set :
      (d : Data) (p q : SdfPath) (f g : Token) (v : Value)
      → IsValid d
      → get_field_value (set d p f v) q g
        ≡ ite
            (paths.eq p q)
            (ite
              (token_eq f g)
              (if is_empty v then none else if has_spec d p then some v else none)
              (get_field_value d q g))
            (get_field_value d q g)
  unfolding set
  get_field_value-set d p q f g v i = ground (
    arith,
    get_field_value-erase d p q f g i,
    get_field_value-write_field_value d p q f g v,
    get_field_value_of_table (set_const d p f v) (write_field_value d p f v) q g
        (table-set_const d p f v),
  )

  -- Set never creates a spec, removes one or changes its type.
  pub get_spec_type-set :
      (d : Data) (p q : SdfPath) (f : Token) (v : Value)
      → (get_spec_type (set d p f v) q ≡ get_spec_type d q)
        × (has_spec (set d p f v) q ≡ has_spec d q)
  unfolding set get_spec_type has_spec erase write_field_value
  get_spec_type-set d p q f v = elim (Option-cases (Dict.find p d.table)) [
    | inl e ↦ ground (arith, table-set_const d p f v)
    | inr (s, e) ↦ ground (
      arith,
      table-set_const d p f v,
      find-put q p (record s { fields = put_field f v s.fields }) d.table,
      find-put q p (record s { fields = remove_field f s.fields }) d.table,
    )
  ]

  -- MoveSpec carries a spec with its fields to a path that is free, and does nothing otherwise.
  get_field_value-move_spec :
      (d : Data) (p q r : SdfPath) (f : Token)
      → get_field_value (move_spec d p q) r f ≡ (
          if has_spec d p
          then (if has_spec d q
              then get_field_value d r f
              else ite
                  (paths.eq p r)
                  none
                  (ite (paths.eq q r) (get_field_value d p f) (get_field_value d r f)))
          else get_field_value d r f)
  unfolding get_field_value move_spec has_spec
  get_field_value-move_spec d p q r f = elim (Option-cases (Dict.find p d.table)) [
    | inl e ↦ ground arith
    | inr (s, e) ↦ ground (arith, find-erase r p (Dict.put q s d.table), find-put r q s d.table)
  ]

  -- CreateSpec keeps the fields of a spec that is there, and makes an empty one where it is not.
  pub get_field_value-create_spec :
      (d : Data) (p q : SdfPath) (t : SpecType) (f : Token)
      → get_field_value (create_spec d p t) q f ≡ get_field_value d q f
  unfolding get_field_value create_spec find_field
  get_field_value-create_spec d p q t f = elim (Option-cases (Dict.find p d.table)) [
    | inl e ↦ ground (arith, find-put q p (record { spec_type = t; fields = [] }) d.table)
    | inr (s, e) ↦ ground (arith, find-put q p (record s { spec_type = t }) d.table)
  ]

  pub get_spec_type-create_spec :
      (d : Data) (p q : SdfPath) (t : SpecType)
      → get_spec_type (create_spec d p t) q ≡ (
          ite
            (paths.eq p q)
            (ite (usd.spec_type_eq t unknown) (get_spec_type d q) t)
            (get_spec_type d q))
  unfolding get_spec_type create_spec
  get_spec_type-create_spec d p q t =
      ground (arith, find-put q p (record { spec_type = t; fields = fields_at d.table p }) d.table)
