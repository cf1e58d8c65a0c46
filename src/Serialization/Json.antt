-- ===== src/Serialization/Json.antt =====
-- What the program takes from Boost.JSON: the kinds of a boost::json::value that it makes and reads.
-- `value_to` and the `as_` and `at` accessors throw on another kind, here `none`. An object is the
-- list of its members in the order in which they were inserted.
use render_studio_kit.Shared.{ℕ, String, Bool, ◌≡◌, List, Option, none, some, string_key}
use render_studio_kit.Shared.Dict
use render_studio_kit.Shared.Options.{◌>>=◌, traverse}

pub record JsonLibrary : Type 1 where
  pub Json : Type 0
  pub null : Json
  pub is_null : Json → Bool
  pub of_string : String → Json
  pub as_string : Json → Option String
  pub of_array : List Json → Json
  pub as_array : Json → Option (List Json)
  pub of_object : List (String × Json) → Json
  pub as_object : Json → Option (List (String × Json))
  -- bool and std::size_t
  pub of_bool : Bool → Json
  pub as_bool : Json → Option Bool
  pub of_nat : ℕ → Json
  pub as_nat : Json → Option ℕ

-- A value that was made is read back.
pub record Reads (json : JsonLibrary) : Type 0 where
  pub reads_string : (s : String) → json.as_string (json.of_string s) ≡ some s
  pub reads_array : (js : List json.Json) → json.as_array (json.of_array js) ≡ some js
  pub reads_object : (o : List (String × json.Json)) → json.as_object (json.of_object o) ≡ some o
  pub reads_bool : (b : Bool) → json.as_bool (json.of_bool b) ≡ some b
  pub reads_nat : (n : ℕ) → json.as_nat (json.of_nat n) ≡ some n

module _ ⦃json : JsonLibrary⦄ where
  open json use {Json, of_array, as_array, as_object}

  -- The pair of tag_invoke functions of a type: value_from and value_to
  pub record Form (A : Type 0) : Type 0 where
    pub value_from : A → Option Json
    pub value_to : Json → Option A

  -- What is written for `a` is read as `b`.
  abbrev pub Gives : {A : Type 0} → Form A → A → A → Type 0
  Gives form a b = (j : Json) → form.value_from a ≡ some j → form.value_to j ≡ some b

  abbrev pub Keeps : {A : Type 0} → Form A → A → Type 0
  Keeps form a = Gives form a a

  abbrev pub IsFaithful : {A : Type 0} → Form A → Type 0
  IsFaithful {A} form = (a : A) → Keeps form a

  -- json.at(key) of an object that was read
  abbrev pub at : List (String × Json) → String → Option Json
  at o key = Dict.find key o

  module _ {A : Type 0} (form : Form A) where
    -- value_to<T>(json.at(key)), and Helper::Extract
    unfoldable pub extract : List (String × Json) → String → Option A
    extract o key = at o key >>= form.value_to

    -- Helper::Extract for a std::optional: a missing key leaves it empty
    unfoldable pub extract_optional : List (String × Json) → String → Option (Option A)
    extract_optional o key = elim (at o key) [
      | none ↦ some none
      | some j ↦ do a ← form.value_to j; some (some a)
    ]

    -- std::vector<T>, VtArray<T>: an array of the items
    unfoldable pub array_form : Form (List A)
    array_form = record {
      value_from = λ xs. (do js ← traverse form.value_from xs; some (of_array js));
      value_to = λ j. (do js ← as_array j; traverse form.value_to js);
    }
