-- ===== src/Downloads/Host.antt =====
-- What the downloads take from outside: std::filesystem and files, libzip, the HTTP library, and random
-- numbers. They are a parameter over an unknown disk and network. A step of the program is a function
-- of the world that may throw, and keeps what it did before it threw.
use render_studio_kit.Shared.{ℕ, String, Bool, List, Option, none, some, if◌then◌else◌}
use render_studio_kit.Shared.Texts.{Text}
use render_studio_kit.Networking.Url.{UriParser}

pub data Verb : Type 0 where
  get post put : Verb

-- The request that is written: its verb, target, the fields that are set, and the body
pub record Request : Type 0 where
  pub verb : Verb
  pub target : Text
  pub host : Text
  pub content_type : Option Text
  pub authorization : Option Text
  pub body : Text

-- The status, the field `location` (empty when it is missing), and the body
pub record Response : Type 0 where
  pub status : ℕ
  pub location : Text
  pub body : Text

-- How ssl_stream::shutdown ends
pub data Shutdown : Type 0 where
  no_error end_of_file stream_truncated other_error : Shutdown

pub record Host : Type 1 where
  -- std::filesystem::path
  pub FsPath : Type 0
  pub path_of : Text → FsPath
  pub join : FsPath → Text → FsPath
  pub parent_path : FsPath → FsPath
  pub filename : FsPath → Text
  pub extension : FsPath → Text
  -- FOLDERID_Profile, or "/var/lib/AMD/"
  pub user_home : FsPath
  -- The files. What may throw tells whether it did not, with the disk that is left.
  pub Disk : Type 0
  pub exists : FsPath → Disk → Bool
  pub is_regular_file : FsPath → Disk → Bool
  pub create_directories : FsPath → Disk → Bool × Disk
  pub remove_all : FsPath → Disk → Bool × Disk
  pub rename : FsPath → FsPath → Disk → Bool × Disk
  -- directory_iterator and recursive_directory_iterator
  pub entries : FsPath → Disk → Option (List FsPath)
  pub recursive_entries : FsPath → Disk → Option (List FsPath)
  -- An ofstream that writes all of the text and is closed; its errors are silent
  pub write : FsPath → Text → Disk → Disk
  pub read : FsPath → Disk → Option Text
  -- ArchOpenFile: a null pointer is none
  pub File : Type 0
  pub open_file : FsPath → Disk → Option File
  -- zip_extract: its status, and the disk that is left
  pub zip_extract : FsPath → FsPath → Disk → ℕ × Disk
  -- SSL_set_tlsext_host_name
  pub set_host_name : Text → Bool
  -- The network: resolver.resolve, connect, handshake, one request
  -- with its response, and shutdown. `none` is a thrown system_error.
  pub Network : Type 0
  pub Endpoints : Type 0
  pub Stream : Type 0
  pub resolve : Text → Text → Network → Option Endpoints × Network
  pub connect : Endpoints → Network → Option Stream × Network
  pub handshake : Text → Stream → Network → Option Stream × Network
  pub exchange : Stream → Request → Network → Option Response × Network
  pub shutdown : Stream → Network → Shutdown × Network
  pub close : Stream → Network → Network
  pub uri_parse : UriParser
  -- std::random_device, and what dis(gen) and dis2(gen) give with its seed: digits 0 to 15 and 8 to 11
  pub Entropy : Type 0
  pub Generator : Type 0
  pub seed : Entropy → Generator × Entropy
  pub digit : Generator → ℕ × Generator
  pub variant : Generator → ℕ × Generator
  -- The bytes of a string that was parsed
  pub bytes : String → Text
  -- float: std::stof, <, and the product and quotient with 1024
  pub Float : Type 0
  pub stof : Text → Option Float
  pub less : Float → Float → Bool
  pub times_1024 : Float → Float
  pub divided_by_1024 : Float → Float

-- How a step ends. `terminated` is std::terminate, for an exception that leaves a destructor, and
-- `undefined` is undefined behaviour.
pub data Outcome (A : Type 0) : Type 0 where
  done : A → Outcome A
  thrown terminated undefined out_of_fuel : Outcome A

module _ ⦃h : Host⦄ where
  open h use {Disk, Network, Entropy}

  pub record World : Type 0 where
    pub disk : Disk
    pub network : Network
    pub entropy : Entropy

  abbrev pub Step : Type 0 → Type 0
  Step A = World → Outcome A × World

  abbrev pub return : {A : Type 0} → A → Step A
  return a w = (done a, w)

  abbrev pub throw : {A : Type 0} → Step A
  throw w = (thrown, w)

  abbrev pub exhausted : {A : Type 0} → Step A
  exhausted w = (out_of_fuel, w)

  -- What follows a step that was done
  abbrev pub next : {A B : Type 0} → Outcome A × World → (A → Step B) → Outcome B × World
  next (done a, w) f = f a w
  next (thrown, w) f = (thrown, w)
  next (terminated, w) f = (terminated, w)
  next (undefined, w) f = (undefined, w)
  next (out_of_fuel, w) f = (out_of_fuel, w)

  infixl 5 ◌>>=◌
  unfoldable pub ◌>>=◌ : {A B : Type 0} → Step A → (A → Step B) → Step B
  (m >>= f) w = next (m w) f

  -- catch (const std::exception&)
  abbrev pub caught : {A : Type 0} → A → Outcome A × World → Outcome A × World
  caught a (done b, w) = (done b, w)
  caught a (thrown, w) = (done a, w)
  caught a (terminated, w) = (terminated, w)
  caught a (undefined, w) = (undefined, w)
  caught a (out_of_fuel, w) = (out_of_fuel, w)

  unfoldable pub try_or : {A : Type 0} → A → Step A → Step A
  try_or a m w = caught a (m w)

  -- A question to the disk
  abbrev pub ask : {A : Type 0} → (Disk → A) → Step A
  ask f w = (done (f w.disk), w)

  -- A change of the disk that may throw
  unfoldable pub on_disk : (Disk → Bool × Disk) → Step Unit
  on_disk f w =
      let r = f w.disk in
      let w' = record w { disk = r.1 } in if r.0 then (done tt, w') else (thrown, w')

  -- A change of the network that may throw
  abbrev pub answered : {A : Type 0} → Option A → Outcome A
  answered none = thrown
  answered (some a) = done a

  unfoldable pub on_network : {A : Type 0} → (Network → Option A × Network) → Step A
  on_network f w = let r = f w.network in (answered r.0, record w { network = r.1 })
