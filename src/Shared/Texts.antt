-- ===== src/Shared/Texts.antt =====
-- Texts as lists of bytes, for the code that walks them: searching, replacing, and reading up to a
-- delimiter.
use Prim.Native.Char.{code}
use render_studio_kit.Shared.{
  ℕ, zero, suc, ◌-◌, Bool, true, false, ◌||◌, String, List, [], ◌∷◌, ◌++◌, Option, none, some, ite,
  ℕ_discrete, length, is_some, ◌≡◌, ◌≢◌, refl, arith,
}

abbrev pub Text : Type 0
Text = List ℕ

-- The bytes of an ASCII literal
abbrev pub codes : String → Text
codes String.[] = []
codes (String.◌∷◌ c s) = code c ∷ codes s

unfoldable pub text_eq : Text → Text → Bool
text_eq [] [] = true
text_eq (a ∷ s) (b ∷ t) = ite (ℕ_discrete a b) (text_eq s t) false
text_eq _ _ = false

-- What follows the prefix, if the text begins with it
unfoldable pub strip : Text → Text → Option Text
strip [] s = some s
strip (a ∷ prefix) [] = none
strip (a ∷ prefix) (b ∷ s) = ite (ℕ_discrete a b) (strip prefix s) none

-- s.rfind(prefix, 0) == 0
abbrev pub starts_with : Text → Text → Bool
starts_with prefix s = is_some (strip prefix s)

-- s.find(pattern) != std::string::npos
unfoldable pub contains : Text → Text → Bool
contains pattern [] = starts_with pattern []
contains pattern (c ∷ s) = starts_with pattern (c ∷ s) || contains pattern s

-- boost::replace_all of a pattern that is not empty, from the left: the bytes of an occurrence after
-- its first one are skipped.
unfoldable pub replace_after : Text → Text → ℕ → Text → Text
replace_after pattern by skip [] = []
replace_after pattern by (suc skip) (c ∷ s) = replace_after pattern by skip s
replace_after pattern by zero (c ∷ s) = elim (strip pattern (c ∷ s)) [
  | some rest ↦ by ++ replace_after pattern by (length pattern - 1) s
  | none ↦ c ∷ replace_after pattern by zero s
]

abbrev pub replace_all : Text → Text → Text → Text
replace_all pattern by s = replace_after pattern by 0 s

-- What is read up to the delimiter, and what is left behind it
unfoldable pub split_at : ℕ → Text → Text × Text
split_at d [] = ([], [])
split_at d (c ∷ s) = let rest = split_at d s in ite (ℕ_discrete c d) ([], s) (c ∷ rest.0, rest.1)

-- std::getline, which fails when nothing is left
unfoldable pub getline : ℕ → Text → Option (Text × Text)
getline d [] = none
getline d (c ∷ s) = some (split_at d (c ∷ s))

-- s.erase(std::remove(s.begin(), s.end(), d), s.end())
unfoldable pub remove : ℕ → Text → Text
remove d [] = []
remove d (c ∷ s) = let rest = remove d s in ite (ℕ_discrete c d) rest (c ∷ rest)

-- The byte does not occur in the text.
abbrev pub Avoids : ℕ → Text → Type 0
Avoids d [] = Unit {0}
Avoids d (c ∷ s) = (c ≢ d) × Avoids d s

-- What stands before and after the first delimiter, if there is one
unfoldable pub cut : ℕ → Text → Option (Text × Text)
cut d [] = none
cut d (c ∷ s) =
    let rest = cut d s in
    ite (ℕ_discrete c d) (some ([], s))
      (elim rest [ none ↦ none | some (before, after) ↦ some (c ∷ before, after) ])

pub cut-delimited : (d : ℕ) (s t : Text) → Avoids d s → cut d (s ++ d ∷ t) ≡ some (s, t)
unfolding cut
cut-delimited d [] t h = ground arith
cut-delimited d (c ∷ s) t h = ground (arith, cut-delimited d s t h.1, h.0)

pub remove-append : (d : ℕ) (s t : Text) → remove d (s ++ t) ≡ remove d s ++ remove d t
unfolding remove
remove-append d [] t = refl
remove-append d (c ∷ s) t = ground (arith, remove-append d s t)

pub remove-same : (d : ℕ) (s : Text) → Avoids d s → remove d s ≡ s
unfolding remove
remove-same d [] h = refl
remove-same d (c ∷ s) h = ground (arith, h.0, remove-same d s h.1)

pub Avoids-append : (d : ℕ) (s t : Text) → Avoids d s → Avoids d t → Avoids d (s ++ t)
Avoids-append d [] t h k = k
Avoids-append d (c ∷ s) t h k = (h.0, Avoids-append d s t h.1 k)
