-- ===== src/Downloads/Steps.antt =====
-- What a property of the world needs to survive a step, whichever way the step ends.
use render_studio_kit.Shared.{Bool, true, false, ◌≡◌, refl, Option, none, some, if◌then◌else◌}
use render_studio_kit.Downloads.Host.{
  Host, World, Step, Outcome, done, thrown, terminated, undefined, out_of_fuel, next, caught, ask,
  return, throw, try_or, ◌>>=◌,
}
use render_studio_kit.Downloads.FileUtils.{listed}

module _ ⦃h : Host⦄ where
  open h use {Disk, Network}

  abbrev pub Keeps : (World → Type 0) → {A : Type 0} → Step A → Type 0
  Keeps P m = (w : World) → P w → P ((m w).1)

  -- `P` holds afterwards, and `Q` of what a step that was done returns.
  abbrev pub After :
      {A : Type 0} → (World → Type 0) → (A → World → Type 0) → Outcome A × World → Type 0
  After P Q (done a, w) = P w × Q a w
  After P Q (thrown, w) = P w
  After P Q (terminated, w) = P w
  After P Q (undefined, w) = P w
  After P Q (out_of_fuel, w) = P w

  module _ (P : World → Type 0) where
    abbrev pub Ensures : {A : Type 0} → Step A → (A → World → Type 0) → Type 0
    Ensures m Q = (w : World) → P w → After P Q (m w)

    next-After :
        {A B : Type 0} (Q : A → World → Type 0) (R : B → World → Type 0) (r : Outcome A × World)
        (f : A → Step B)
        → After P Q r
        → ((a : A) (w : World) → P w → Q a w → After P R (f a w))
        → After P R (next r f)
    next-After Q R (done a, w) f p k = k a w p.0 p.1
    next-After Q R (thrown, w) f p k = p
    next-After Q R (terminated, w) f p k = p
    next-After Q R (undefined, w) f p k = p
    next-After Q R (out_of_fuel, w) f p k = p

    -- A step and what follows it
    pub bind-Ensures :
        {A B : Type 0} (Q : A → World → Type 0) (R : B → World → Type 0) (m : Step A)
        (f : A → Step B)
        → Ensures m Q
        → ((a : A) (w : World) → P w → Q a w → After P R (f a w))
        → Ensures (m >>= f) R
    unfolding ◌>>=◌
    bind-Ensures Q R m f p k w h = next-After Q R (m w) f (p w h) k

    After-Keeps :
        {A : Type 0} (Q : A → World → Type 0) (r : Outcome A × World) → After P Q r → P r.1
    After-Keeps Q (done a, w) p = p.0
    After-Keeps Q (thrown, w) p = p
    After-Keeps Q (terminated, w) p = p
    After-Keeps Q (undefined, w) p = p
    After-Keeps Q (out_of_fuel, w) p = p

    After-any : {A : Type 0} (r : Outcome A × World) → P r.1 → After P (λ a w. Unit {0}) r
    After-any (done a, w) p = (p, tt)
    After-any (thrown, w) p = p
    After-any (terminated, w) p = p
    After-any (undefined, w) p = p
    After-any (out_of_fuel, w) p = p

    pub Keeps-Ensures : {A : Type 0} (m : Step A) → Keeps P m → Ensures m (λ a w. Unit {0})
    Keeps-Ensures m k w p = After-any (m w) (k w p)

    pub Ensures-Keeps : {A : Type 0} (Q : A → World → Type 0) (m : Step A) → Ensures m Q → Keeps P m
    Ensures-Keeps Q m k w p = After-Keeps Q (m w) (k w p)

    pub bind-Keeps :
        {A B : Type 0} (m : Step A) (f : A → Step B)
        → Keeps P m
        → ((a : A) → Keeps P (f a))
        → Keeps P (m >>= f)
    bind-Keeps m f p k = Ensures-Keeps _ (m >>= f) (
        bind-Ensures _ (λ b v. Unit {0}) m f (Keeps-Ensures m p)
          (λ a w p u. After-any (f a w) (k a w p)))

    pub ask-Keeps : {A : Type 0} (f : Disk → A) → Keeps P (ask f)
    ask-Keeps f w h = h

    pub return-Keeps : {A : Type 0} (a : A) → Keeps P (return a)
    return-Keeps a w h = h

    pub throw-Keeps : (A : Type 0) → Keeps P (throw {A = A})
    throw-Keeps A w h = h

    pub listed-Keeps : {A : Type 0} (o : Option A) → Keeps P (listed o)
    listed-Keeps none w h = h
    listed-Keeps (some a) w h = h

    pub listed-Ensures : {A : Type 0} (o : Option A) → Ensures (listed o) (λ a w. o ≡ some a)
    listed-Ensures none w p = p
    listed-Ensures (some a) w p = (p, refl)

    pub if-Keeps :
        {A : Type 0} (b : Bool) (m n : Step A)
        → Keeps P m
        → Keeps P n
        → Keeps P (if b then m else n)
    if-Keeps true m n p q = p
    if-Keeps false m n p q = q

    caught-Keeps : {A : Type 0} (a : A) (r : Outcome A × World) → P r.1 → P ((caught a r).1)
    caught-Keeps a (done b, w) p = p
    caught-Keeps a (thrown, w) p = p
    caught-Keeps a (terminated, w) p = p
    caught-Keeps a (undefined, w) p = p
    caught-Keeps a (out_of_fuel, w) p = p

    pub try_or-Keeps : {A : Type 0} (a : A) (m : Step A) → Keeps P m → Keeps P (try_or a m)
    unfolding try_or
    try_or-Keeps a m p w h = caught-Keeps a (m w) (p w h)
