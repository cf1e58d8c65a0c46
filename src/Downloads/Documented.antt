-- ===== src/Downloads/Documented.antt =====
-- The documented behaviour of std::filesystem and libzip that the downloads rely on, as named
-- hypotheses.
use render_studio_kit.Shared.{true, false, ◌≡◌, ◌≢◌, List, [], ◌∷◌, some}
use render_studio_kit.Shared.Texts.{Text, codes, Avoids}
use render_studio_kit.Downloads.Host.{Host}

-- A name that stays in the directory that it is joined to
pub record IsName (name : Text) : Type 0 where
  pub no_slash : Avoids b'/' name
  pub no_backslash : Avoids b'\\' name
  pub no_drive : Avoids b':' name
  pub no_parent : name ≢ codes ".."

abbrev pub Each : {A : Type 0} → (A → Type 0) → List A → Type 0
Each P [] = Unit {0}
Each P (x ∷ xs) = P x × Each P xs

module _ ⦃h : Host⦄ where
  open h use {
    FsPath, Disk, join, filename, exists, create_directories, remove_all, rename, entries, write,
    zip_extract,
  }

  pub record Documented : Type 1 where
    -- A path lies at another one or below it.
    pub Under : FsPath → FsPath → Type 0
    pub under_trans : (p q r : FsPath) → Under p q → Under q r → Under p r
    pub join_under : (p : FsPath) (name : Text) → IsName name → Under (join p name) p
    pub filename_join : (p : FsPath) (name : Text) → IsName name → filename (join p name) ≡ name
    -- What exists lies in directories that exist.
    pub parents : (p q : FsPath) (d : Disk) → Under p q → exists p d ≡ true → exists q d ≡ true
    pub created :
        (p : FsPath) (d : Disk)
        → (create_directories p d).0 ≡ true
        → exists p ((create_directories p d).1) ≡ true
    pub removed :
        (p : FsPath) (d : Disk) → (remove_all p d).0 ≡ true → exists p ((remove_all p d).1) ≡ false
    pub entries_under :
        (p : FsPath) (ps : List FsPath) (d : Disk)
        → entries p d ≡ some ps
        → Each (λ q. Under q p) ps
    -- What each call leaves in place
    pub create_keeps :
        (p q : FsPath) (d : Disk) → exists q d ≡ true → exists q ((create_directories p d).1) ≡ true
    pub write_keeps :
        (p q : FsPath) (s : Text) (d : Disk) → exists q d ≡ true → exists q (write p s d) ≡ true
    pub extract_keeps :
        (p r q : FsPath) (d : Disk) → exists q d ≡ true → exists q ((zip_extract p r d).1) ≡ true
    pub remove_keeps :
        (p q : FsPath) (d : Disk)
        → ¬ Under q p
        → exists q d ≡ true
        → exists q ((remove_all p d).1) ≡ true
    pub rename_keeps :
        (p r q : FsPath) (d : Disk)
        → ¬ Under q p
        → exists q d ≡ true
        → exists q ((rename p r d).1) ≡ true
