-- ===== src/Examples/Serializing.antt =====
-- The theorems on the JSON forms at concrete inputs, with a JSON library whose values are trees.
use Prim.Native.String as Text
use render_studio_kit.Shared.{
  ℕ, zero, suc, ◌≡◌, refl, sym, ap, Bool, true, false, String, List, [], ◌∷◌, Option, none, some,
  ite, arith, map, get_or, string_discrete, ℕ_discrete,
}
use render_studio_kit.Serialization.Api.{Event, delta_event}
use render_studio_kit.Serialization.Json.{
  JsonLibrary, Reads, Form, Gives, Keeps, IsFaithful, array_form,
}
use render_studio_kit.Serialization.Forms.{
  Plain, IsPlain, create_explicit, create_edits, ListOp, list_op_form, path_form, token_form,
  spec_type_form, enum_form,
}
use render_studio_kit.Serialization.ListOps.{list_op_form-Gives}
use render_studio_kit.Serialization.Values.{
  Kind, VtValue, entry, no_entries, text_value, ints_value, dictionary_value, matrix4d_value,
  tested_name, remove_spaces, value_form, value_to_json,
}
use render_studio_kit.Serialization.ValueRoundTrip.{value_form-Keeps}
use render_studio_kit.Serialization.Matrix.{matrix_outside}
use render_studio_kit.Serialization.Matrices.{json_to_matrix}
use render_studio_kit.Serialization.Conversion.{undefined}
use render_studio_kit.Serialization.Events.{
  Printer, nat_form, json_codec, event_form, print_event, body_to_json, delta_form, update_form,
  field_form,
}
use render_studio_kit.Serialization.EventRoundTrip.{json_codec_reads}
use render_studio_kit.Shared.Options.{traverse}
use render_studio_kit.Examples.World.{Value, number, world}
use render_studio_kit.Examples.Syncing.{paths-IsOrdered}

mutual
  pub data Tree : Type 0 where
    null : Tree
    text : String → Tree
    truth : Bool → Tree
    num : ℕ → Tree
    array : Trees → Tree
    object : Members → Tree

  pub data Trees : Type 0 where
    nil : Trees
    cons : Tree → Trees → Trees

  pub data Members : Type 0 where
    end : Members
    member : String → Tree → Members → Members

abbrev of_list : List Tree → Trees
of_list [] = nil
of_list (t ∷ ts) = cons t (of_list ts)

abbrev to_list : Trees → List Tree
to_list nil = []
to_list (cons t ts) = t ∷ to_list ts

abbrev of_members : List (String × Tree) → Members
of_members [] = end
of_members ((key, t) ∷ o) = member key t (of_members o)

abbrev to_members : Members → List (String × Tree)
to_members end = []
to_members (member key t o) = (key, t) ∷ to_members o

abbrev text_in : Tree → Option String
text_in (text s) = some s
text_in _ = none

abbrev truth_in : Tree → Option Bool
truth_in (truth b) = some b
truth_in _ = none

abbrev pub num_in : Tree → Option ℕ
num_in (num n) = some n
num_in _ = none

abbrev array_in : Tree → Option (List Tree)
array_in (array ts) = some (to_list ts)
array_in _ = none

abbrev object_in : Tree → Option (List (String × Tree))
object_in (object o) = some (to_members o)
object_in _ = none

abbrev null_in : Tree → Bool
null_in null = true
null_in _ = false

instance abbrev pub trees : JsonLibrary
trees = record {
  Json = Tree;
  null = null;
  is_null = null_in;
  of_string = text;
  as_string = text_in;
  of_array = λ ts. array (of_list ts);
  as_array = array_in;
  of_object = λ o. object (of_members o);
  as_object = object_in;
  of_bool = truth;
  as_bool = truth_in;
  of_nat = num;
  as_nat = num_in;
}

to_list-of_list : (ts : List Tree) → to_list (of_list ts) ≡ ts
to_list-of_list [] = refl
to_list-of_list (t ∷ ts) = ap (λ us. t ∷ us) (to_list-of_list ts)

to_members-of_members : (o : List (String × Tree)) → to_members (of_members o) ≡ o
to_members-of_members [] = refl
to_members-of_members ((key, t) ∷ o) = ap (λ o'. (key, t) ∷ o') (to_members-of_members o)

trees-Reads : Reads trees
trees-Reads = record {
  reads_string = λ s. refl;
  reads_array = λ ts. ap some (to_list-of_list ts);
  reads_object = λ o. ap some (to_members-of_members o);
  reads_bool = λ b. refl;
  reads_nat = λ n. refl;
}

-- A path and a token are written as that many letters.
abbrev letters : ℕ → String
letters zero = ""
letters (suc n) = Text.◌∷◌ "a" (letters n)

abbrev count : String → ℕ
count Text.[] = 0
count (Text.◌∷◌ c s) = suc (count s)

count-letters : (n : ℕ) → count (letters n) ≡ n
count-letters zero = refl
count-letters (suc n) = ap suc (count-letters n)

abbrev same : ℕ → ℕ
same n = n

abbrev plain : Plain
plain = record {
  Real = ℕ;
  Float = ℕ;
  Int = ℕ;
  real_form = nat_form;
  float_form = nat_form;
  int_form = nat_form;
  path_text = letters;
  path_of = count;
  empty_path = 0;
  token_text = letters;
  token_of = count;
  Specifier = ℕ;
  Variability = ℕ;
  specifier_number = same;
  specifier_of = same;
  variability_number = same;
  variability_of = same;
  spec_type_number = same;
  spec_type_of = same;
}

nat_form-IsFaithful : IsFaithful nat_form
unfolding nat_form
nat_form-IsFaithful n j e = ground arith

letters_path : (p : ℕ) → ite (string_discrete (letters p) "") 0 (count (letters p)) ≡ p
letters_path p = elim (string_discrete (letters p) "") [
  | yes e ↦ ground (arith, ap count e, count-letters p)
  | no n ↦ ground (arith, count-letters p)
]

plain-IsPlain : IsPlain plain
plain-IsPlain = record {
  keeps_real = nat_form-IsFaithful;
  keeps_float = nat_form-IsFaithful;
  keeps_int = nat_form-IsFaithful;
  keeps_path = letters_path;
  keeps_token = count-letters;
  keeps_specifier = λ v. refl;
  keeps_variability = λ v. refl;
  keeps_spec_type = λ v. refl;
}

-- The names without spaces as they are tested, and sixteen numbers
remove_spaces-tested_name : (k : Kind) → remove_spaces (tested_name k) ≡ tested_name k
unfolding remove_spaces tested_name ℕ_discrete
remove_spaces-tested_name Kind.vec3d = refl
remove_spaces-tested_name Kind.vec3f = refl
remove_spaces-tested_name Kind.boolean = refl
remove_spaces-tested_name Kind.specifier = refl
remove_spaces-tested_name Kind.token = refl
remove_spaces-tested_name Kind.text = refl
remove_spaces-tested_name Kind.variability = refl
remove_spaces-tested_name Kind.ints = refl
remove_spaces-tested_name Kind.floats = refl
remove_spaces-tested_name Kind.token_array = refl
remove_spaces-tested_name Kind.vec2fs = refl
remove_spaces-tested_name Kind.vec3fs = refl
remove_spaces-tested_name Kind.double = refl
remove_spaces-tested_name Kind.float = refl
remove_spaces-tested_name Kind.token_vector = refl
remove_spaces-tested_name Kind.matrix4d = refl
remove_spaces-tested_name Kind.path_list_op = refl
remove_spaces-tested_name Kind.reference_list_op = refl
remove_spaces-tested_name Kind.token_list_op = refl
remove_spaces-tested_name Kind.path_vector = refl
remove_spaces-tested_name Kind.int = refl
remove_spaces-tested_name Kind.dictionary = refl
remove_spaces-tested_name Kind.asset_path = refl
remove_spaces-tested_name Kind.value_block = refl

abbrev sixteen : List ℕ
sixteen = 1 ∷ 2 ∷ 3 ∷ 4 ∷ 5 ∷ 6 ∷ 7 ∷ 8 ∷ 9 ∷ 10 ∷ 11 ∷ 12 ∷ 13 ∷ 14 ∷ 15 ∷ 16 ∷ []

-- { "name": "a", "sizes": { "all": [ 1, 2 ] } }
abbrev nested : VtValue plain
nested = dictionary_value (
    entry "name" (text_value "a") (
      entry "sizes" (dictionary_value (entry "all" (ints_value (1 ∷ 2 ∷ [])) no_entries))
        no_entries))

value_form-Keeps_example : Keeps (value_form plain tested_name sixteen 3) nested
value_form-Keeps_example =
    value_form-Keeps trees-Reads plain plain-IsPlain tested_name sixteen remove_spaces-tested_name 3
      nested (omega arith) (tt, ((tt, tt), tt))

abbrev sixteen_trees : List Tree
sixteen_trees = map num sixteen

matrix_outside_example :
    (value_to_json plain tested_name sixteen (matrix4d_value sixteen) ≡ undefined)
    × (json_to_matrix nat_form sixteen (trees.of_array sixteen_trees) ≡ undefined)
unfolding nat_form traverse
matrix_outside_example =
    matrix_outside trees-Reads plain tested_name sixteen sixteen sixteen_trees sixteen_trees sixteen
      refl refl refl (omega arith) refl

-- A list operation that prepends 1, appends 2 and deletes 3, besides items that are added and ordered
abbrev edits : ListOp ℕ
edits = record {
  is_explicit = false;
  explicit_items = [];
  added_items = 4 ∷ [];
  prepended_items = 1 ∷ [];
  appended_items = 2 ∷ [];
  deleted_items = 3 ∷ [];
  ordered_items = 5 ∷ [];
}

list_op_form-Gives_example : Gives (list_op_form nat_form) edits (record {
  is_explicit = false;
  explicit_items = [];
  added_items = [];
  prepended_items = 1 ∷ [];
  appended_items = 2 ∷ [];
  deleted_items = 3 ∷ [];
  ordered_items = [];
})
list_op_form-Gives_example = list_op_form-Gives trees-Reads nat_form edits nat_form-IsFaithful

-- An empty list that was set explicitly comes back as no edit at all.
list_op_form-cleared : Gives (list_op_form nat_form) (create_explicit []) (create_edits [] [] [])
list_op_form-cleared =
    list_op_form-Gives trees-Reads nat_form (create_explicit []) nat_form-IsFaithful

-- Of the values only numbers have a form here, and the printer knows one text.
abbrev number_in : Value → Option Tree
number_in (number n) = some (num n)
number_in _ = none

abbrev number_of : Tree → Option Value
number_of (num n) = some (number n)
number_of _ = none

abbrev number_form : Form Value
number_form = record { value_from = number_in; value_to = number_of }

abbrev edit : Event
edit = delta_event (record {
  layer = "scene";
  user = "ann";
  sequence = some 1;
  updates =
      (1, record { spec_type = 2; fields = (7, number 70) ∷ [] })
      ∷ (2, record { spec_type = 3; fields = [] })
      ∷ [];
})

abbrev edit_json : Tree
edit_json = get_or null ((event_form plain number_form).value_from edit)

abbrev printer : Printer trees
printer = record { print = λ j. "the edit"; parse = λ text. some edit_json }

abbrev read_back : Option Tree → Option Value
read_back none = none
read_back (some j) = number_of j

number_form-Keeps : (n : ℕ) → Keeps number_form (number n)
number_form-Keeps n j e = ap read_back (sym e)

printed : (o : Option Tree) (j : Tree) → o ≡ some j → some (get_or null o) ≡ some j
printed o j e = ap (λ o'. some (get_or null o')) e

json_codec_reads_example : (json_codec plain number_form printer).parse_event "the edit" ≡ some edit
unfolding print_event event_form body_to_json string_discrete delta_form array_form traverse
    update_form path_form spec_type_form enum_form nat_form field_form token_form
json_codec_reads_example =
    json_codec_reads trees-Reads plain plain-IsPlain number_form paths-IsOrdered printer edit
      (λ j e. printed ((event_form plain number_form).value_from edit) j e)
      (((refl, tt), (tt, tt)), ((number_form-Keeps 70, tt), (tt, tt))) refl
