-- ===== src/Examples/Disk.antt =====
-- A small disk: the directory /1 with the file /1/2 and the link /1/3 to the missing file /9/4, and
-- the laws of a slot map whose keys are places in a list.
use logdna_agent_v.Base.{
  ℕ, zero, suc, ◌≡◌, refl, Bool, true, false, ◌||◌, none, some, List, [], ◌∷◌, ◌++◌, Result, ok,
  err, arith, length, get_elem?, ◌==◌, if◌then◌else◌,
}
use logdna_agent_v.Shared.FilePath.{FilePath, same_path}
use logdna_agent_v.Shared.Rule.{Patterns, Rules, glob_rule}
use logdna_agent_v.Shared.Lookback
use logdna_agent_v.Fs.Cache.Data.{
  World, Entry, FileType, is_symlink, is_directory, is_file, Metadata, FileSystem,
}
use logdna_agent_v.Fs.Cache.Start.{fresh}
use logdna_agent_v.Fs.Cache.Tidy.{SlotLaws}

abbrev set_at : List (Entry ℕ) → ℕ → Entry ℕ → List (Entry ℕ)
set_at [] k e = []
set_at (x ∷ m) zero e = e ∷ m
set_at (x ∷ m) (suc k) e = x ∷ set_at m k e

abbrev below : FilePath → FilePath → Bool
below dir [] = false
below dir (name ∷ parent) = same_path dir parent || below dir parent

abbrev pub globs : Patterns
globs = record {
  Regex = Unit {0};
  Glob = FilePath × Bool;
  is_match = λ re path. none;
  glob_matches = λ g path. if g.1 then below g.0 path else same_path g.0 path;
}

abbrev pub dir_path : FilePath
dir_path = 1 ∷ []

abbrev pub file_path : FilePath
file_path = 2 ∷ 1 ∷ []

abbrev pub link_path : FilePath
link_path = 3 ∷ 1 ∷ []

abbrev pub target_path : FilePath
target_path = 4 ∷ 9 ∷ []

abbrev pub file_data : Metadata
file_data = record { is_dir = false; len = 100; created = some 5 }

-- Error 0 is a missing file.
abbrev type_of : FilePath → Result ℕ FileType
type_of path =
    if same_path path dir_path
    then ok is_directory
    else if same_path path file_path
    then ok is_file
    else if same_path path link_path
    then ok is_symlink
    else err 0

abbrev data_of : FilePath → Result ℕ Metadata
data_of path =
    if same_path path file_path
    then ok file_data
    else if same_path path dir_path
    then ok (record { is_dir = true; len = 0; created = none })
    else err 0

abbrev pub disk : World
disk = record {
  Key = ℕ;
  same_key = λ a b. a == b;
  EntryMap = List (Entry ℕ);
  get = λ m k. get_elem? m k;
  insert = λ m e. (m ++ e ∷ [], length m);
  set = set_at;
  no_entries = [];
  values = λ m. m;
  patterns = globs;
  below_glob = λ path. (path, true);
  path_glob = λ path. (path, false);
  IoError = ℕ;
  is_not_found = λ e. e == 0;
  is_os_error_24 = λ e. e == 24;
  WatchError = ℕ;
  symlink_metadata = type_of;
  metadata = data_of;
  get_inode = λ path. ok 7;
  resolve_link = λ path. err 0;
  read_link = λ path. ok target_path;
  read_dir = λ path. ok (ok file_path ∷ ok link_path ∷ []);
  is_file = λ path. same_path path file_path;
  is_dir = λ path. same_path path dir_path;
  canonicalizes = λ path. true;
  walk_follow = λ path. ok dir_path ∷ [];
  walk_dir = λ path. [];
  open_file = λ path. ok tt;
  watch = λ path. ok tt;
  unwatch = λ path. ok tt;
  takes_deletion_ack = λ path. true;
  fuel = 8;
}

get-append :
    (m : List (Entry ℕ)) (e : Entry ℕ) (j : ℕ)
    → get_elem? (m ++ e ∷ []) j ≡ (if length m == j then some e else get_elem? m j)
get-append [] e zero = refl
get-append [] e (suc j) = ground arith
get-append (x ∷ m) e zero = ground arith
get-append (x ∷ m) e (suc j) = ground (arith, get-append m e j)

get_length : (m : List (Entry ℕ)) → get_elem? m (length m) ≡ none
get_length [] = refl
get_length (x ∷ m) = get_length m

get-set_at :
    (m : List (Entry ℕ)) (k : ℕ) (e old : Entry ℕ) (j : ℕ)
    → get_elem? m k ≡ some old
    → get_elem? (set_at m k e) j ≡ (if k == j then some e else get_elem? m j)
get-set_at [] k e old j h = absurd (cc)
get-set_at (x ∷ m) zero e old zero h = refl
get-set_at (x ∷ m) zero e old (suc j) h = ground arith
get-set_at (x ∷ m) (suc k) e old zero h = ground arith
get-set_at (x ∷ m) (suc k) e old (suc j) h = ground (arith, get-set_at m k e old j h)

pub slot_laws : SlotLaws disk
slot_laws = record {
  same_iff = λ a b. (λ h. ground arith, λ h. ground arith);
  get-insert = get-append;
  get-insert_new = λ m e. get_length m;
  get-set = get-set_at;
}

-- Files below /1 are tracked.
abbrev pub below_one : Rules globs
below_one = record {
  inclusion = glob_rule (dir_path, true) ∷ glob_rule (dir_path, false) ∷ [];
  exclusion = [];
}

abbrev pub empty_cache : FileSystem disk
empty_cache = record (fresh disk [] Lookback.start (λ i. none) below_one 9 (below_one, [])) {
  events = [];
}
