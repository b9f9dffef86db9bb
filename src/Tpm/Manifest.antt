-- ===== src/Tpm/Manifest.antt =====
-- The ESP manifests of auto_tpm_encrypt.py: `capture_current_esp_manifest`, `load_esp_manifests`,
-- `get_last_esp_manifest`, `update_esp_manifest_if_changed` and `esp_matches_manifest`.
pub mod Found
pub mod Latest
pub mod Recorded
use os_lockdown.Base.{
  ℕ, Bool, true, false, ◌&&◌, ◌||◌, ◌==◌, Option, none, some, List, [], ◌∷◌, ◌++◌, map, Text, codes,
  text_eq, starts_with, ends_with, length, drop, if◌then◌else◌,
}
use os_lockdown.Tpm.Result.{
  Result, ok, err, ◌>>=◌, or_raise, die, value_error, key_error, assertion_error,
}

-- A dict with texts as its keys, in the order in which they came.
abbrev pub Dict {ℓ} : Type ℓ → Type ℓ
Dict V = List (Text × V)

module _ {ℓ} {V : Type ℓ} where
  unfoldable pub find : Text → Dict V → Option V
  find k [] = none
  find k (x ∷ xs) = if text_eq k x.0 then some x.1 else find k xs

  unfoldable pub put : Text → V → Dict V → Dict V
  put k v [] = (k, v) ∷ []
  put k v (x ∷ xs) = if text_eq k x.0 then (k, v) ∷ xs else x ∷ put k v xs

  unfoldable pub puts : Dict V → List (Text × V) → Dict V
  puts d [] = d
  puts d (e ∷ es) = puts (put e.0 e.1 d) es

-- The paths below the ESP: a file has the digest of what it holds, a folder has none.
abbrev pub Manifest : Type 0
Manifest = Dict (Option Text)

unfoldable pub value_eq : Option Text → Option Text → Bool
value_eq none none = true
value_eq none (some t) = false
value_eq (some s) none = false
value_eq (some s) (some t) = text_eq s t

abbrev pub has_value : Option Text → Option (Option Text) → Bool
has_value v none = false
has_value v (some w) = value_eq v w

unfoldable pub all_in : List (Text × Option Text) → Manifest → Bool
all_in [] b = true
all_in (e ∷ es) b = has_value e.1 (find e.0 b) && all_in es b

-- `a == b` of two dicts
unfoldable pub manifest_eq : Manifest → Manifest → Bool
manifest_eq a b = length a == length b && all_in a b

-- What `os.walk` gives: a folder, and the names of the folders and files in it.
pub record Folder : Type 0 where
  pub root : Text
  pub dirs : List Text
  pub files : List Text

-- `os.path.join`
unfoldable pub join_path : Text → Text → Text
join_path root name =
    if starts_with name (codes "/")
    then name
    else if ends_with root (codes "/") || text_eq root []
    then root ++ name
    else root ++ codes "/" ++ name

abbrev pub with_trailing_sep : Text → Text
with_trailing_sep root = if ends_with root (codes "/") then root else root ++ codes "/"

-- An entry of the manifest, whose path begins behind the root's.
unfoldable pub entry : Text → Text → Option Text → Result (Text × Option Text)
entry prefix full_path value =
    if starts_with full_path prefix
    then ok (drop (length prefix) full_path, value)
    else err assertion_error

module _ (hash_file : Text → Text) (prefix : Text) where
  unfoldable pub file_entries : Text → List Text → Result (List (Text × Option Text))
  file_entries root [] = ok []
  file_entries root (name ∷ names) = do
    let full_path = join_path root name
    e ← entry prefix full_path (some (hash_file full_path))
    es ← file_entries root names
    ok (e ∷ es)

  unfoldable pub dir_entries : Text → List Text → Result (List (Text × Option Text))
  dir_entries root [] = ok []
  dir_entries root (name ∷ names) = do
    e ← entry prefix (join_path root name) none
    es ← dir_entries root names
    ok (e ∷ es)

  unfoldable pub walk_entries : List Folder → Result (List (Text × Option Text))
  walk_entries [] = ok []
  walk_entries (f ∷ folders) = do
    files ← file_entries f.root f.files
    dirs ← dir_entries f.root f.dirs
    es ← walk_entries folders
    ok (files ++ dirs ++ es)

-- `walk` is what `os.walk(esp_root)` gives.
unfoldable pub capture_current_esp_manifest : (Text → Text) → Text → List Folder → Result Manifest
capture_current_esp_manifest hash_file esp_root walk =
    walk_entries hash_file (with_trailing_sep esp_root) walk >>= λ es. ok (puts [] es)

-- A JSON file: the members of an object, none for a value that is not an object; another value; or
-- bytes that are not JSON.
pub data Stored : Type 0 where
  members : List (Text × Option Manifest) → Stored
  other_value : Stored
  not_json : Stored

unfoldable pub checked : Dict (Option Manifest) → Result (Dict Manifest)
checked [] = ok []
checked ((k, none) ∷ es) = err die
checked ((k, some m) ∷ es) = checked es >>= λ rest. ok ((k, m) ∷ rest)

unfoldable pub load_esp_manifests : Option Stored → Result (Dict Manifest)
load_esp_manifests none = ok []
load_esp_manifests (some (members es)) = checked (puts [] es)
load_esp_manifests (some other_value) = err die
load_esp_manifests (some not_json) = err value_error

-- `float`, `str` of a float, and the order of floats.
pub record Floats (T : Type 0) : Type 0 where
  pub parse : Text → Option T
  pub print : T → Text
  pub leb : T → T → Bool

abbrev pub dump : Dict Manifest → List (Text × Option Manifest)
dump = map (λ e. (e.0, some e.1))

module _ {T : Type 0} (floats : Floats T) where
  unfoldable pub times : Dict Manifest → Result (List T)
  times [] = ok []
  times (e ∷ es) = do t ← or_raise value_error (floats.parse e.0); ts ← times es; ok (t ∷ ts)

  -- `sorted(..., reverse=True)[0]`
  unfoldable pub latest : T → List T → T
  latest a [] = a
  latest a (b ∷ bs) = latest (if floats.leb b a then a else b) bs

  unfoldable pub at_latest : Dict Manifest → List T → Result (Option Manifest)
  at_latest manifests [] = ok none
  at_latest manifests (t ∷ ts) =
      or_raise key_error (find (floats.print (latest t ts)) manifests) >>= λ m. ok (some m)

  unfoldable pub get_last_esp_manifest : Dict Manifest → Result (Option Manifest)
  get_last_esp_manifest manifests = times manifests >>= at_latest manifests

  abbrev pub is_last : Option Manifest → Manifest → Bool
  is_last none current = false
  is_last (some m) current = manifest_eq m current

  -- The file afterwards. The new key is a float and so none of those that are there, which are texts.
  unfoldable pub update_esp_manifest_if_changed :
      (Text → Text) → Text → List Folder → T → Option Stored → Result (Option Stored)
  update_esp_manifest_if_changed hash_file esp_root walk now file = do
    current ← capture_current_esp_manifest hash_file esp_root walk
    manifests ← load_esp_manifests file
    last ← get_last_esp_manifest manifests
    if is_last last current
        then ok file
        else ok (some (members (dump (manifests ++ (floats.print now, current) ∷ []))))

  unfoldable pub esp_matches_manifest :
      (Text → Text) → Text → List Folder → Option Stored → Result Bool
  esp_matches_manifest hash_file esp_root walk file = do
    current ← capture_current_esp_manifest hash_file esp_root walk
    manifests ← load_esp_manifests file
    last ← get_last_esp_manifest manifests
    ok (is_last last current)
