-- ===== src/Baselines.antt =====
-- benchmarks/baseline_manager.py: the directory of baselines, with its link to the latest one.
-- A directory is its entries by name; labels are taken to be plain names, without a separator, the
-- directory to be writable, and the data of a baseline to have a JSON form.
pub mod Latest
pub mod Dangling
pub mod Ideal
pub mod Refinement
mod Tests
use metal_native.Base.{
  ℕ, zero, suc, Bool, true, false, Option, none, some, List, [], ◌∷◌, ◌++◌, if◌then◌else◌, ◌==◌,
  leb, ltb, length,
}
use metal_native.Base.Dict.{Dict, keys, lookup, has_key, insert, erase}
use metal_native.Base.Exec.{
  Exn, Result, ok, err, file_not_found, os_error, json_error, Exec, pure, raise, lift, modify,
  ◌>>=◌, ◌>>◌,
}
use metal_native.Base.Text.{Text, text_eq, text_leb, codes, strip_prefix}

-- A saved baseline, by the entries that the manager reads; the timestamp and the metadata are left out.
pub record Baseline : Type 0 where
  pub label : Text
  pub git_hash : Text
  pub git_branch : Text
  pub results : List ℕ

-- The content of a file, as `json.load` takes it.
pub data Content : Type 0 where
  baseline : Baseline → Content
  malformed : Content

pub data Entry : Type 0 where
  file : Content → Entry
  link : Text → Entry

abbrev pub Directory : Type 0
Directory = Dict Text Entry

-- `self.baseline_dir / f"{label}.json"`
abbrev pub file_name : Text → Text
file_name label = label ++ codes ".json"

abbrev pub latest_link : Text
latest_link = codes "latest.json"

-- The name that `open` reaches from a name by at most `fuel - 1` links.
abbrev pub follow : ℕ → Directory → Text → Result Text
follow zero d name = err os_error
follow (suc fuel) d name = elim (lookup name d) [
  | none ↦ ok name
  | some e ↦ elim e [ file c ↦ ok name | link target ↦ follow fuel d target ]
]

-- `open`, which follows up to 40 links.
unfoldable pub resolve : Directory → Text → Result Text
resolve d name = follow 41 d name

abbrev pub content_of : Option Entry → Result Content
content_of none = err file_not_found
content_of (some (link target)) = err file_not_found
content_of (some (file c)) = ok c

abbrev pub content_at : Directory → Result Text → Result Content
content_at d (ok name) = content_of (lookup name d)
content_at d (err e) = err e

-- What `open(path, 'r')` gives to read.
unfoldable pub read_file : Text → Directory → Result Content
unfolding resolve
read_file name d = content_at d (resolve d name)

abbrev is_ok : Result Content → Bool
is_ok (ok c) = true
is_ok (err e) = false

-- `path.exists()`, which follows links
unfoldable pub path_exists : Text → Directory → Bool
unfolding read_file
path_exists name d = is_ok (read_file name d)

abbrev pub write_at : Baseline → Directory → Result Text → Result (Unit {0}) × Directory
write_at b d (ok target) = (ok tt, insert target (file (baseline b)) d)
write_at b d (err e) = (err e, d)

-- `with open(path, 'w') as f: json.dump(data, f)`
unfoldable pub write_file : Text → Baseline → Exec Directory (Unit {0})
unfolding resolve
write_file name b d = write_at b d (resolve d name)

-- `if latest_link.exists() or latest_link.is_symlink(): latest_link.unlink()`
abbrev pub unlink_latest : Directory → Directory
unlink_latest d = if has_key latest_link d then erase latest_link d else d

abbrev pub link_latest : Text → Directory → Directory
link_latest name d = insert latest_link (link name) (unlink_latest d)

-- `save_baseline`, with the label chosen and the baseline made
unfoldable pub save_baseline : Text → Baseline → Exec Directory Text
unfolding write_file
save_baseline label b = do
  write_file (file_name label) b
  modify (link_latest (file_name label))
  pure label

abbrev pub load_json : Content → Result Baseline
load_json (baseline b) = ok b
load_json malformed = err json_error

abbrev loaded : Result Content → Result Baseline
loaded (ok c) = load_json c
loaded (err e) = err e

unfoldable pub load_baseline : Text → Directory → Result Baseline
unfolding path_exists read_file
load_baseline label d =
    if path_exists (file_name label) d
    then loaded (read_file (file_name label) d)
    else err file_not_found

-- `delete_baseline`; `unlink` does not follow a link.
unfoldable pub delete_baseline : Text → Exec Directory (Unit {0})
unfolding path_exists
delete_baseline label d =
    if path_exists (file_name label) d
    then (ok tt, erase (file_name label) d)
    else (err file_not_found, d)

-- The first baseline under the names, in their order, whose hash starts with `git_hash`; a malformed
-- file is skipped.
abbrev pub starts_with : Text → Text → Bool
starts_with p s = elim (strip_prefix p s) [ none ↦ false | some rest ↦ true ]

abbrev chosen : Text → Result Content → Result (Option Baseline) → Result (Option Baseline)
chosen git_hash (ok (baseline b)) rest =
    if starts_with git_hash b.git_hash then ok (some b) else rest
chosen git_hash (ok malformed) rest = rest
chosen git_hash (err e) rest = err e

abbrev among : Text → Directory → List Text → Result (Option Baseline)
unfolding read_file
among git_hash d [] = ok none
among git_hash d (name ∷ names) =
    let rest = among git_hash d names in
    if name == latest_link then rest else chosen git_hash (read_file name d) rest

-- `get_baseline_by_git_hash`; `glob("*.json")` gives the names in the order of the directory, all of
-- which are taken to end in ".json".
unfoldable pub get_baseline_by_git_hash : Text → Directory → Result (Option Baseline)
unfolding among
get_baseline_by_git_hash git_hash d = among git_hash d (keys d)

-- What `list_baselines` says of a baseline.
pub record Info : Type 0 where
  pub label : Text
  pub git_hash : Text
  pub git_branch : Text
  pub num_benchmarks : ℕ

abbrev pub info : Baseline → Info
info b = record {
  label = b.label;
  git_hash = b.git_hash;
  git_branch = b.git_branch;
  num_benchmarks = length b.results;
}

abbrev insert_sorted : Text → List Text → List Text
insert_sorted name [] = name ∷ []
insert_sorted name (n ∷ names) =
    let rest = insert_sorted name names in if text_leb name n then name ∷ n ∷ names else n ∷ rest

abbrev pub sorted : List Text → List Text
sorted [] = []
sorted (name ∷ names) = insert_sorted name (sorted names)

abbrev before : Info → Result (List Info) → Result (List Info)
before i (ok rest) = ok (i ∷ rest)
before i (err e) = err e

abbrev listed_with : Result Content → Result (List Info) → Result (List Info)
listed_with (ok (baseline b)) rest = before (info b) rest
listed_with (ok malformed) rest = rest
listed_with (err e) rest = err e

abbrev listed : Directory → List Text → Result (List Info)
unfolding read_file
listed d [] = ok []
listed d (name ∷ names) =
    let rest = listed d names in
    if name == latest_link then rest else listed_with (read_file name d) rest

unfoldable pub list_baselines : Directory → Result (List Info)
unfolding listed
list_baselines d = listed d (sorted (keys d))
