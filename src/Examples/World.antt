-- ===== src/Examples/World.antt =====
-- A small stand-in for OpenUSD: paths, tokens and spec types are numbers.
use render_studio_kit.Shared.{
  ℕ, String, Bool, true, false, List, [], ◌∷◌, Option, none, some, ite, nat_key, ℕ_discrete,
}
use render_studio_kit.Usd.{Usd}
use render_studio_kit.Data.State.{Data, init}

mutual
  pub data Value : Type 0 where
    nothing : Value
    number : ℕ → Value
    token_value : ℕ → Value
    token_list : List ℕ → Value
    owned_by : String → Value
    sampled : Samples → Value

  -- An SdfTimeSampleMap
  pub data Samples : Type 0 where
    no_samples : Samples
    sample : ℕ → Value → Samples → Samples

abbrev pub of_map : List (ℕ × Value) → Samples
of_map [] = no_samples
of_map ((t, v) ∷ m) = sample t v (of_map m)

abbrev pub to_map : Samples → List (ℕ × Value)
to_map no_samples = []
to_map (sample t v m) = (t, v) ∷ to_map m

abbrev samples_in : Value → Option (List (ℕ × Value))
samples_in (sampled m) = some (to_map m)
samples_in _ = none

abbrev is_nothing : Value → Bool
is_nothing nothing = true
is_nothing _ = false

abbrev token_in : Value → Option ℕ
token_in (token_value t) = some t
token_in _ = none

abbrev tokens_in : Value → List ℕ
tokens_in (token_list ts) = ts
tokens_in _ = []

abbrev owner_in : Value → Option String
owner_in (owned_by name) = some name
owner_in _ = none

abbrev is_number : ℕ → ℕ → Bool
is_number a b = ite (ℕ_discrete a b) true false

-- SdfPath 0 is the root and path 9 moves an object; all others are primitives. Token 0 is the empty one.
instance abbrev pub world : Usd
world = record {
  SdfPath = ℕ;
  Token = ℕ;
  Value = Value;
  SpecType = ℕ;
  path_key = nat_key;
  token_eq = ℕ_discrete;
  spec_type_eq = ℕ_discrete;
  unknown = 0;
  is_prim_path = λ p. ite (ℕ_discrete p 9) false true;
  get_prim_path = λ p. 1;
  is_absolute_root_path = is_number 0;
  is_xform_op = is_number 9;
  empty_value = nothing;
  is_empty = is_nothing;
  held_token = token_in;
  is_empty_token = is_number 0;
  tokens = tokens_in;
  of_tokens = token_list;
  owner_entry = owner_in;
  Time = ℕ;
  time_key = nat_key;
  held_samples = samples_in;
  of_samples = λ m. sampled (of_map m);
  custom_data = 1;
  active = 2;
  type_name = 3;
  prim_children = 4;
  time_samples = 5;
}

-- A loaded layer with the primitive 1, which has the field 7 and the children 20 and 21
abbrev pub layer_data : Data
layer_data = record init {
  table =
      (0, record { spec_type = 1; fields = [] })
      ∷ (1, record { spec_type = 2; fields = (7, number 70) ∷ (4, token_list (20 ∷ 21 ∷ [])) ∷ [] })
      ∷ [];
  is_loaded = true;
}

-- The same layer after an own edit of the primitive 1 that waits for its acknowledgement
abbrev pub edited_data : Data
edited_data = record layer_data { unacknowledged_fields = (1, tt) ∷ [] }
