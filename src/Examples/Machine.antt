-- ===== src/Examples/Machine.antt =====
-- A machine for the downloads: the file system of Examples.Disk, a network that gives the responses of
-- a list, one for each request and the last one for ever, and identifiers that are counted.
use render_studio_kit.Shared.{
  ℕ, ◌+◌, ◌%◌, ◌*◌, Bool, true, false, refl, List, [], ◌∷◌, Option, none, some, is_nil,
  if◌then◌else◌, ltb,
}
use render_studio_kit.Shared.Texts.{Text, codes}
use render_studio_kit.Downloads.Host.{Host, Response, no_error}
use render_studio_kit.Downloads.Documented.{Documented}
use render_studio_kit.Examples.Disk.{
  FilePath, Files, present, make, put_text, drop_all, move_to, tail_of, children, below, Below,
  Below-trans, present-Below, make-present, make-keeps, write-keeps, drop-keeps, drop-removes,
  move-keeps, children-Below,
}

-- What lies behind the last dot of a name
abbrev dotted : Text → Text → Text
dotted found [] = found
dotted found (c ∷ s) = dotted (if ltb c 47 then (if ltb 45 c then c ∷ s else found) else found) s

abbrev name_of : FilePath → Text
name_of [] = []
name_of (a ∷ p) = a

abbrev content : Option (Option Text) → Option Text
content none = none
content (some o) = o

abbrev is_file : Option (Option Text) → Bool
is_file (some (some s)) = true
is_file _ = false

abbrev next_response : List (Option Response) → Option Response × List (Option Response)
next_response [] = (none, [])
next_response (r ∷ []) = (r, r ∷ [])
next_response (r ∷ s ∷ rs) = (r, s ∷ rs)

abbrev number : ℕ → Text → ℕ
number n [] = n
number n (c ∷ s) = number (n * 10 + c % 48) s

instance abbrev pub machine : Host
machine = record {
  FsPath = FilePath;
  path_of = λ s. s ∷ [];
  join = λ p a. a ∷ p;
  parent_path = tail_of;
  filename = name_of;
  extension = λ p. dotted [] (name_of p);
  user_home = codes "home" ∷ [];
  Disk = Files;
  exists = present;
  is_regular_file = λ p f. is_file (f.node p);
  create_directories = make;
  remove_all = drop_all;
  rename = move_to;
  entries = children;
  recursive_entries = below;
  write = put_text;
  read = λ p f. content (f.node p);
  File = Text;
  open_file = λ p f. content (f.node p);
  zip_extract = λ p r f. (0, put_text (codes "a.mtlx" ∷ r) (codes "material") f);
  set_host_name = λ s. true;
  Network = List (Option Response);
  Endpoints = Unit {0};
  Stream = Unit {0};
  resolve = λ host port n. (some tt, n);
  connect = λ e n. (some tt, n);
  handshake = λ host stream n. (some tt, n);
  exchange = λ stream request n. next_response n;
  shutdown = λ stream n. (no_error, n);
  close = λ stream n. n;
  uri_parse = λ s. some (record {
    scheme = codes "https";
    host_text = s;
    port_text = [];
    path_segments = [];
    query_text = [];
  });
  Entropy = ℕ;
  Generator = ℕ;
  seed = λ e. (e, e + 1);
  digit = λ g. (g % 16, g + 1);
  variant = λ g. (8 + g % 4, g + 1);
  bytes = codes;
  Float = ℕ;
  stof = λ s. if is_nil s then none else some (number 0 s);
  less = ltb;
  times_1024 = λ n. n * 1024;
  divided_by_1024 = λ n. n;
}

pub machine-Documented : Documented
machine-Documented = record {
  Under = Below;
  under_trans = Below-trans;
  join_under = λ p name n. (name ∷ [], refl);
  filename_join = λ p name n. refl;
  parents = λ p q d. present-Below p q d;
  created = λ p d e. make-present p d;
  removed = drop-removes;
  entries_under = λ p ps d. children-Below p ps d;
  create_keeps = make-keeps;
  write_keeps = write-keeps;
  extract_keeps = λ p r q d. write-keeps (codes "a.mtlx" ∷ r) q (codes "material") d;
  remove_keeps = drop-keeps;
  rename_keeps = move-keeps;
}
