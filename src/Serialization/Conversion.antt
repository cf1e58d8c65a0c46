-- ===== src/Serialization/Conversion.antt =====
-- Sources/Serialization: how the conversion of a value to or from JSON ends. An exception and an access
-- outside of an object, whose behaviour is undefined, are two outcomes; the first of them in the order
-- of the code is what the conversion ends with.
use render_studio_kit.Shared.{◌≡◌, refl, Option, none, some}

pub data Conversion (A : Type 0) : Type 0 where
  converted : A → Conversion A
  threw undefined out_of_fuel : Conversion A

infixl 5 ◌>>=◌
abbrev pub ◌>>=◌ : {A B : Type 0} → Conversion A → (A → Conversion B) → Conversion B
converted a >>= f = f a
threw >>= f = threw
undefined >>= f = undefined
out_of_fuel >>= f = out_of_fuel

module _ {A : Type 0} where
  -- A step that returns or throws
  abbrev pub returned : Option A → Conversion A
  returned none = threw
  returned (some a) = converted a

  -- An access of memory, which may not belong to the object
  abbrev pub accessed : Option A → Conversion A
  accessed none = undefined
  accessed (some a) = converted a

  -- The value that a conversion returns, if it returns one
  abbrev pub value_of : Conversion A → Option A
  value_of (converted a) = some a
  value_of threw = none
  value_of undefined = none
  value_of out_of_fuel = none

  pub >>=-eq-converted :
      {B : Type 0} (m : Conversion A) (f : A → Conversion B) {b : B}
      → (m >>= f) ≡ converted b
      → (a : A) × (m ≡ converted a) × (f a ≡ converted b)
  >>=-eq-converted (converted a) f h = (a, refl, h)
  >>=-eq-converted threw f h = cc
  >>=-eq-converted undefined f h = cc
  >>=-eq-converted out_of_fuel f h = cc

  pub returned-eq-converted : (o : Option A) {a : A} → returned o ≡ converted a → o ≡ some a
  returned-eq-converted none h = cc
  returned-eq-converted (some a) h = cc

  pub value_of-eq-some : (m : Conversion A) {a : A} → value_of m ≡ some a → m ≡ converted a
  value_of-eq-some (converted a) h = cc
  value_of-eq-some threw h = cc
  value_of-eq-some undefined h = cc
  value_of-eq-some out_of_fuel h = cc
