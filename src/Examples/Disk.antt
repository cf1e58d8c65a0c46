-- ===== src/Examples/Disk.antt =====
-- A file system that satisfies what the downloads rely on: a function from paths to nodes, with the
-- paths that were ever made. A path is the list of its names, the last one first.
use mathlib.Core.List.{append_assoc}
use render_studio_kit.Shared.{
  Bool, true, false, not, ◌&&◌, ◌||◌, ◌≡◌, refl, sym, ◌∙◌, ap, inl, inr, Bool-cases, is_some, List,
  [], ◌∷◌, ◌++◌, Option, none, some, if◌then◌else◌, subst, arith,
}
use render_studio_kit.Shared.Texts.{Text, text_eq}
use render_studio_kit.Downloads.Documented.{Each}

abbrev pub FilePath : Type 0
FilePath = List Text

-- A directory is `some none`.
pub record Files : Type 0 where
  pub node : FilePath → Option (Option Text)
  pub known : List FilePath

abbrev pub same : FilePath → FilePath → Bool
same [] [] = true
same (a ∷ p) (b ∷ q) = text_eq a b && same p q
same _ _ = false

abbrev pub under : FilePath → FilePath → Bool
under [] q = same [] q
under (a ∷ p) q = same (a ∷ p) q || under p q

abbrev pub present : FilePath → Files → Bool
present [] f = true
present (a ∷ p) f = is_some (f.node (a ∷ p)) && present p f

abbrev pub Below : FilePath → FilePath → Type 0
Below p q = (r : FilePath) × (p ≡ r ++ q)

text_eq-same : (a b : Text) → text_eq a b ≡ true → a ≡ b
unfolding text_eq
text_eq-same [] [] e = refl
text_eq-same [] (c ∷ b) e = cc e
text_eq-same (c ∷ a) [] e = cc e
text_eq-same (c ∷ a) (d ∷ b) e = ground (arith, text_eq-same a b)

text_eq_self : (a : Text) → text_eq a a ≡ true
unfolding text_eq
text_eq_self [] = refl
text_eq_self (c ∷ a) = ground (arith, text_eq_self a)

same-eq : (p q : FilePath) → same p q ≡ true → p ≡ q
same-eq [] [] e = refl
same-eq [] (b ∷ q) e = cc e
same-eq (a ∷ p) [] e = cc e
same-eq (a ∷ p) (b ∷ q) e = grind (arith, text_eq-same a b, same-eq p q)

same_self : (p : FilePath) → same p p ≡ true
same_self [] = refl
same_self (a ∷ p) = grind (arith, text_eq_self a, same_self p)

pub under-Below : (p q : FilePath) → under p q ≡ true → Below p q
under-Below [] q e = ([], same-eq [] q e)
under-Below (a ∷ p) q e = elim (Bool-cases (same (a ∷ p) q)) [
  | inl s ↦ ([], same-eq (a ∷ p) q s)
  | inr n ↦ (let (r, e') = under-Below p q (grind (arith, n, e)) in (a ∷ r, ap (λ x. a ∷ x) e'))
]

under_self : (a : Text) (p : FilePath) → under (a ∷ p) (a ∷ p) ≡ true
under_self a p = grind (arith, same_self (a ∷ p))

pub Below-trans : (p q r : FilePath) → Below p q → Below q r → Below p r
Below-trans p q r (s, e) (t, e') = (s ++ t, e ∙ ap (λ x. s ++ x) e' ∙ sym (append_assoc s t r))

pub present-Below :
    (p q : FilePath) (f : Files) → Below p q → present p f ≡ true → present q f ≡ true
present-Below p q f (r, e) h = go r (subst (λ x. present x f ≡ true) e h)
  where
    go : (r : FilePath) → present (r ++ q) f ≡ true → present q f ≡ true
    go [] h = h
    go (a ∷ r) h = go r (grind (arith, h))

-- What a change of the nodes leaves present: a path of which every part keeps a node
kept :
    (f g : Files) (P : FilePath → Type 0)
    → ((a : Text) (p : FilePath) → P (a ∷ p) → P p)
    → ((p : FilePath)
        → P p
        → present p f ≡ true
        → is_some (f.node p) ≡ true
        → is_some (g.node p) ≡ true)
    → (p : FilePath) → P p
    → present p f ≡ true
    → present p g ≡ true
kept f g P down node [] h e = refl
kept f g P down node (a ∷ p) h e =
    grind (arith, node (a ∷ p) h e, kept f g P down node p (down a p h))

abbrev is_root : FilePath → Bool
is_root [] = true
is_root (a ∷ p) = false

-- Directories that are missing are made; what is there stays.
abbrev or_directory : Option (Option Text) → Option (Option Text)
or_directory none = some none
or_directory (some n) = some n

abbrev pub make : FilePath → Files → Bool × Files
make p f = (
  true,
  record {
    node = λ q. if under p q then or_directory (f.node q) else f.node q;
    known = p ∷ f.known;
  },
)

abbrev pub put_text : FilePath → Text → Files → Files
put_text p s f = record {
  node = λ q. if same q p then some (some s) else f.node q;
  known = p ∷ f.known;
}

abbrev pub drop_all : FilePath → Files → Bool × Files
drop_all p f = (not (is_root p), record f { node = λ q. if under q p then none else f.node q })

abbrev rebase : FilePath → FilePath → FilePath → FilePath
rebase p r [] = p
rebase p r (a ∷ q) = let rest = rebase p r q in if same (a ∷ q) r then p else a ∷ rest

abbrev moved : FilePath → FilePath → Files → Files
moved p r f = record {
  node = λ q. if under q r then f.node (rebase p r q) else if under q p then none else f.node q;
  known = r ∷ f.known;
}

-- Nothing is overwritten.
abbrev pub move_to : FilePath → FilePath → Files → Bool × Files
move_to p r f = let ok = present p f && not (present r f) in (ok, if ok then moved p r f else f)

abbrev pub tail_of : FilePath → FilePath
tail_of [] = []
tail_of (a ∷ p) = p

abbrev is_child : FilePath → FilePath → Bool
is_child [] p = false
is_child (a ∷ q) p = same q p

abbrev pub filtered : (FilePath → Bool) → List FilePath → List FilePath
filtered test [] = []
filtered test (p ∷ ps) = let rest = filtered test ps in if test p then p ∷ rest else rest

abbrev pub children : FilePath → Files → Option (List FilePath)
children p f =
    if present p f then some (filtered (λ q. is_child q p && present q f) f.known) else none

abbrev pub below : FilePath → Files → Option (List FilePath)
below p f = if present p f then some (filtered (λ q. under q p && present q f) f.known) else none

pub make-keeps : (p q : FilePath) (f : Files) → present q f ≡ true → present q ((make p f).1) ≡ true
make-keeps p = λ q f.
    kept f ((make p f).1) (λ x. Unit {0}) (λ a x u. tt)
      (λ x u h e. elim (Bool-cases (under p x)) [
        | inl y ↦ grind (arith, y, e)
        | inr n ↦ grind (arith, n, e)
      ])
      q tt

under_same : (q : FilePath) → under q q ≡ true
under_same [] = refl
under_same (a ∷ q) = under_self a q

under-append : (r q : FilePath) → under (r ++ q) q ≡ true
under-append [] q = under_same q
under-append (a ∷ r) q = grind (arith, under-append r q)

some-or_directory : (n : Option (Option Text)) → is_some (or_directory n) ≡ true
some-or_directory none = refl
some-or_directory (some n) = refl

present-make : (p q r : FilePath) (f : Files) → p ≡ r ++ q → present q ((make p f).1) ≡ true
present-make p [] r f e = refl
present-make p (a ∷ q) r f e =
    let shift : r ++ a ∷ q ≡ (r ++ a ∷ []) ++ q = sym (append_assoc r (a ∷ []) q) in
    grind (
      arith,
      subst (λ x. under x (a ∷ q) ≡ true) (sym e) (under-append r (a ∷ q)),
      some-or_directory (f.node (a ∷ q)),
      present-make p q (r ++ a ∷ []) f (e ∙ shift),
    )

pub make-present : (p : FilePath) (f : Files) → present p ((make p f).1) ≡ true
make-present p f = present-make p p [] f refl

pub write-keeps :
    (p q : FilePath) (s : Text) (f : Files) → present q f ≡ true → present q (put_text p s f) ≡ true
write-keeps p q s f =
    kept f (put_text p s f) (λ x. Unit {0}) (λ a x u. tt) (λ x u h e. ground (arith, e)) q tt

pub drop-keeps :
    (p q : FilePath) (f : Files)
    → ¬ Below q p
    → present q f ≡ true
    → present q ((drop_all p f).1) ≡ true
drop-keeps p q f =
    kept f ((drop_all p f).1) (λ x. ¬ Below x p)
      (λ a x apart (r, e). apart (a ∷ r, ap (λ y. a ∷ y) e))
      (λ x apart h e. elim (Bool-cases (under x p)) [
        | inl y ↦ absurd (apart (under-Below x p y))
        | inr n ↦ grind (arith, n, e)
      ])
      q

pub drop-removes :
    (p : FilePath) (f : Files) → (drop_all p f).0 ≡ true → present p ((drop_all p f).1) ≡ false
drop-removes [] f e = cc e
drop-removes (a ∷ p) f e = rw (under_self a p) refl

move_if :
    (ok : Bool) (p r q : FilePath) (f : Files)
    → (ok ≡ true → present r f ≡ false)
    → ¬ Below q p
    → present q f ≡ true
    → present q (if ok then moved p r f else f) ≡ true
move_if false p r q f free apart h = h
move_if true p r q f free apart h =
    kept f (moved p r f) (λ x. ¬ Below x p) (λ a x apart (s, e). apart (a ∷ s, ap (λ y. a ∷ y) e))
      (λ x apart h e. elim (Bool-cases (under x r)) [
        | inl y ↦ absurd (grind (arith, present-Below x r f (under-Below x r y) h, free refl))
        | inr n ↦ elim (Bool-cases (under x p)) [
          | inl y ↦ absurd (apart (under-Below x p y))
          | inr m ↦ grind (arith, n, m, e)
        ]
      ])
      q apart h

pub move-keeps :
    (p r q : FilePath) (f : Files)
    → ¬ Below q p
    → present q f ≡ true
    → present q ((move_to p r f).1) ≡ true
move-keeps p r q f apart h =
    move_if (present p f && not (present r f)) p r q f (λ e. grind (arith, e)) apart h

filtered-Each :
    {P : FilePath → Type 0} (test : FilePath → Bool) (ps : List FilePath)
    → ((p : FilePath) → test p ≡ true → P p)
    → Each P (filtered test ps)
filtered-Each test [] k = tt
filtered-Each test (p ∷ ps) k = ground (arith, filtered-Each test ps k, k p)

is_child-Below : (q p : FilePath) → is_child q p ≡ true → Below q p
is_child-Below [] p e = cc e
is_child-Below (a ∷ q) p e = (a ∷ [], ap (λ x. a ∷ x) (same-eq q p e))

Each-if :
    (P : FilePath → Type 0) (b : Bool) (xs ps : List FilePath)
    → (if b then some xs else none) ≡ some ps
    → Each P xs
    → Each P ps
Each-if P true xs ps e a = subst (Each P) (cc e) a
Each-if P false xs ps e a = cc e

pub children-Below :
    (p : FilePath) (ps : List FilePath) (f : Files)
    → children p f ≡ some ps
    → Each (λ q. Below q p) ps
children-Below p ps f e =
    Each-if (λ q. Below q p) (present p f) _ ps e
      (filtered-Each (λ q. is_child q p && present q f) f.known
        (λ q h. is_child-Below q p (grind (arith, h))))
