-- ===== src/Data/UniqueFields.antt =====
-- Sources/Resolver/Data.cpp: the vector of fields of a spec as a map, and the invariant that no
-- spec has two fields of one name.
use render_studio_kit.Shared.{◌≡◌, refl, inl, inr, [], ◌∷◌, none, some, ite, arith, Option-cases}
use render_studio_kit.Shared.Dict
use render_studio_kit.Shared.Dict.{put-All, erase-All, find-All}
use render_studio_kit.Usd.{Usd, path_key}
use render_studio_kit.Data.State.{
  Fields, SpecData, HashTable, Data, find_field, create_spec, erase_spec, move_spec, fields_at,
}
use render_studio_kit.Data.Edit.{
  put_field, remove_field, write_field_value, write_field_value_delta, delta_spec, set_const, set,
  erase,
}

module _ ⦃usd : Usd⦄ where
  open usd use {SdfPath, Token, Value, SpecType, token_eq}

  abbrev pub UniqueNames : Fields → Type 0
  UniqueNames [] = Unit {0}
  UniqueNames ((f, v) ∷ fs) = (find_field f fs ≡ none) × UniqueNames fs

  pub find_field-put_field :
      (f g : Token) (v : Value) (fs : Fields)
      → find_field g (put_field f v fs) ≡ ite (token_eq f g) (some v) (find_field g fs)
  unfolding find_field put_field
  find_field-put_field f g v [] = refl
  find_field-put_field f g v ((h, w) ∷ fs) = ground (arith, find_field-put_field f g v fs)

  pub find_field-remove_field :
      (f g : Token) (fs : Fields)
      → UniqueNames fs
      → find_field g (remove_field f fs) ≡ ite (token_eq f g) none (find_field g fs)
  unfolding find_field remove_field
  find_field-remove_field f g [] u = ground arith
  find_field-remove_field f g ((h, w) ∷ fs) u = ground (arith, find_field-remove_field f g fs u.1)

  put_field-UniqueNames :
      (f : Token) (v : Value) (fs : Fields) → UniqueNames fs → UniqueNames (put_field f v fs)
  unfolding find_field put_field
  put_field-UniqueNames f v [] u = (refl, tt)
  put_field-UniqueNames f v ((h, w) ∷ fs) u =
      ground (arith, put_field-UniqueNames f v fs u.1, find_field-put_field f h v fs)

  remove_field-UniqueNames :
      (f : Token) (fs : Fields) → UniqueNames fs → UniqueNames (remove_field f fs)
  unfolding find_field remove_field
  remove_field-UniqueNames f [] u = tt
  remove_field-UniqueNames f ((h, w) ∷ fs) u =
      ground (arith, remove_field-UniqueNames f fs u.1, find_field-remove_field f h fs u.1)

  abbrev pub Unique : HashTable → Type 0
  Unique = Dict.All (λ s. UniqueNames s.fields)

  pub record IsValid (d : Data) : Type 0 where
    pub stored : Unique d.table
    pub pending : Unique d.local_deltas

  pub found-UniqueNames :
      (p : SdfPath) (s : SpecData) (m : HashTable)
      → Unique m
      → Dict.find p m ≡ some s
      → UniqueNames s.fields
  found-UniqueNames p s m u e = find-All (λ r. UniqueNames r.fields) p s m u e

  put-Unique :
      (p : SdfPath) (s : SpecData) (m : HashTable)
      → UniqueNames s.fields
      → Unique m
      → Unique (Dict.put p s m)
  put-Unique p s m h u = put-All (λ r. UniqueNames r.fields) p s m h u

  erase-Unique : (p : SdfPath) (m : HashTable) → Unique m → Unique (Dict.erase p m)
  erase-Unique p m u = erase-All (λ r. UniqueNames r.fields) p m u

  fields_at-UniqueNames : (p : SdfPath) (m : HashTable) → Unique m → UniqueNames (fields_at m p)
  fields_at-UniqueNames p m u = elim (Option-cases (Dict.find p m)) [
    | inl e ↦ rw (e, UniqueNames, fields_at) tt
    | inr (s, e) ↦ rw (e, UniqueNames, fields_at) (found-UniqueNames p s m u e)
  ]

  pub create_spec-IsValid :
      (d : Data) (p : SdfPath) (t : SpecType) → IsValid d → IsValid (create_spec d p t)
  unfolding create_spec
  create_spec-IsValid d p t v =
      let made : SpecData = record { spec_type = t; fields = fields_at d.table p } in
      ground (arith, put-Unique p made d.table (fields_at-UniqueNames p d.table v.stored) v.stored)

  pub erase_spec-IsValid : (d : Data) (p : SdfPath) → IsValid d → IsValid (erase_spec d p)
  unfolding erase_spec
  erase_spec-IsValid d p v = ground (arith, erase-Unique p d.table v.stored)

  pub move_spec-IsValid : (d : Data) (old new : SdfPath) → IsValid d → IsValid (move_spec d old new)
  unfolding move_spec
  move_spec-IsValid d old new v = elim (Option-cases (Dict.find old d.table)) [
    | inl e ↦ rw (e, move_spec) v
    | inr (s, e) ↦
        rw (e, move_spec)
          (ground (
            arith,
            erase-Unique old (Dict.put new s d.table)
                (put-Unique new s d.table (found-UniqueNames old s d.table v.stored e) v.stored),
          ))
  ]

  pub write_field_value-IsValid :
      (d : Data) (p : SdfPath) (f : Token) (v : Value)
      → IsValid d
      → IsValid (write_field_value d p f v)
  unfolding write_field_value
  write_field_value-IsValid d p f v i = elim (Option-cases (Dict.find p d.table)) [
    | inl e ↦ rw (e, write_field_value) i
    | inr (s, e) ↦
        rw (e, write_field_value)
          (record {
            stored =
                put-Unique p _ d.table
                  (put_field-UniqueNames f v s.fields (found-UniqueNames p s d.table i.stored e))
                  i.stored;
            pending = i.pending;
          })
  ]

  delta_spec-UniqueNames :
      (d : Data) (p : SdfPath) (s : SpecData)
      → IsValid d
      → delta_spec d p ≡ some s
      → UniqueNames s.fields
  unfolding delta_spec
  delta_spec-UniqueNames d p s v e = ground (arith, found-UniqueNames p s d.local_deltas v.pending)

  write_field_value_delta-IsValid :
      (d : Data) (p : SdfPath) (f : Token) (v : Value)
      → IsValid d
      → IsValid (write_field_value_delta d p f v)
  unfolding write_field_value_delta
  write_field_value_delta-IsValid d p f v i = elim (Option-cases (delta_spec d p)) [
    | inl e ↦ rw (e, write_field_value_delta) i
    | inr (s, e) ↦
        rw (e, write_field_value_delta)
          (record {
            stored = i.stored;
            pending =
                put-Unique p _ d.local_deltas
                  (put_field-UniqueNames f v s.fields (delta_spec-UniqueNames d p s i e)) i.pending;
          })
  ]

  pub erase-IsValid : (d : Data) (p : SdfPath) (f : Token) → IsValid d → IsValid (erase d p f)
  unfolding erase
  erase-IsValid d p f i = elim (Option-cases (Dict.find p d.table)) [
    | inl e ↦ rw (e, erase) i
    | inr (s, e) ↦
        rw (e, erase)
          (record {
            stored =
                put-Unique p _ d.table
                  (remove_field-UniqueNames f s.fields (found-UniqueNames p s d.table i.stored e))
                  i.stored;
            pending = i.pending;
          })
  ]

  pub set_const-IsValid :
      (d : Data) (p : SdfPath) (f : Token) (v : Value) → IsValid d → IsValid (set_const d p f v)
  unfolding set_const
  set_const-IsValid d p f v i =
      grind (arith, write_field_value-IsValid d p f v i, write_field_value_delta-IsValid)

  pub set-IsValid :
      (d : Data) (p : SdfPath) (f : Token) (v : Value) → IsValid d → IsValid (set d p f v)
  unfolding set
  set-IsValid d p f v i = ground (arith, erase-IsValid d p f i, set_const-IsValid d p f v i)
