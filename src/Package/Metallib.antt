-- ===== src/Package/Metallib.antt =====
-- python/metal_native/_metallib.py: the search for the shader library. The operating system and
-- pathlib are a parameter, read at one moment.
use metal_native.Base.{
  String, ◌≡◌, ◌⊎◌, inl, inr, refl, ap, ◌∙◌, Bool, true, false, ◌&&◌, not, Bool-cases, Option, none,
  some, List, [], ◌∷◌, ◌++◌, map, if◌then◌else◌, ◌==◌, string_eq, All,
}
use metal_native.Base.Exec.{Result, ok, err, runtime_error}

pub record Files : Type 1 where
  pub Place : Type 0
  -- `os.environ.get(name)`, `os.path.isfile`, `os.path.abspath`
  pub environ : String → Option String
  pub is_file_name : String → Bool
  pub abspath : String → String
  -- `Path(__file__)`, `path.parent`, `path / name`, `path.is_file()`, `str(path.absolute())`
  pub this_file : Place
  pub parent : Place → Place
  pub join : Place → String → Place
  pub is_file : Place → Bool
  pub absolute : Place → String

module _ (F : Files) where
  open F use {Place, environ, is_file_name, abspath, this_file, parent, join, is_file, absolute}

  -- `if env_path and os.path.isfile(env_path)`; an empty text is false.
  abbrev pub from_environ : Option String → Option String
  from_environ none = none
  from_environ (some path) =
      if not (path == "") && is_file_name path then some (abspath path) else none

  abbrev pub library_in : Place → Place
  library_in folder = join (join folder "shaders") "metal_native.metallib"

  abbrev pub build_dirs : List String
  build_dirs = "build" ∷ "build/Release" ∷ "build/Debug" ∷ []

  -- The loop over the build directories.
  abbrev pub find_built : Place → List String → Option String
  find_built root [] = none
  find_built root (dir ∷ dirs) =
      let path = library_in (join root dir) in
      let rest = find_built root dirs in if is_file path then some (absolute path) else rest

  abbrev pub find_in_folders : Option String
  find_in_folders =
      let folder = parent this_file in
      let wheel = library_in folder in
      if is_file wheel
      then some (absolute wheel)
      else find_built (parent (parent folder)) build_dirs

  unfoldable pub find_metallib : Option String
  find_metallib = elim (from_environ (environ "METAL_NATIVE_METALLIB")) [
    | some path ↦ some path
    | none ↦ find_in_folders
  ]

  unfoldable pub get_metallib_path : Result String
  unfolding find_metallib
  get_metallib_path = elim find_metallib [ none ↦ err runtime_error | some path ↦ ok path ]

-- Each place that is looked at: whether a file is there, and its absolute path.
abbrev pub Candidate : Type 0
Candidate = Bool × String

-- The path of the first place where a file is.
abbrev pub first_file : List Candidate → Option String
first_file [] = none
first_file ((there, path) ∷ cs) = let rest = first_file cs in if there then some path else rest

abbrev IsMissing : Candidate → Type 0
IsMissing c = c.0 ≡ false

-- `path` is the first file among the places.
abbrev pub IsFirst : String → List Candidate → Type 0
IsFirst path cs =
    (before after : List Candidate) × (cs ≡ before ++ (true, path) ∷ after) × All IsMissing before

first_file-cases :
    (cs : List Candidate)
    → ((first_file cs ≡ none) × All IsMissing cs)
      ⊎ ((path : String) × (first_file cs ≡ some path) × IsFirst path cs)
first_file-cases [] = inl (refl, tt)
first_file-cases ((true, path) ∷ cs) = inr (path, refl, ([], cs, refl, tt))
first_file-cases ((false, path) ∷ cs) = elim (first_file-cases cs) [
  | inl (e, a) ↦ inl (e, (refl, a))
  | inr (q, e, (before, after, s, a)) ↦
      inr (q, e, ((false, path) ∷ before, after, ap (λ x. (false, path) ∷ x) s, (refl, a)))
]

module _ (F : Files) where
  open F use {Place, environ, is_file_name, abspath, this_file, parent, join, is_file, absolute}

  abbrev pub named_candidate : Option String → List Candidate
  named_candidate none = []
  named_candidate (some path) = if path == "" then [] else (is_file_name path, abspath path) ∷ []

  abbrev pub folder_candidate : Place → Candidate
  folder_candidate folder = (is_file (library_in F folder), absolute (library_in F folder))

  -- The variable where it is set to a text that is not empty, the package, and the three builds.
  abbrev pub candidates : List Candidate
  candidates =
      let folder = parent this_file in
      let root = parent (parent folder) in
      named_candidate (environ "METAL_NATIVE_METALLIB")
      ++ map folder_candidate
          (folder ∷ join root "build" ∷ join root "build/Release" ∷ join root "build/Debug" ∷ [])

  found_after :
      (o : Option String) (cs : List Candidate)
      → elim (from_environ F o) [ some path ↦ some path | none ↦ first_file cs ]
        ≡ first_file (named_candidate o ++ cs)
  found_after none cs = refl
  found_after (some path) cs = elim (Bool-cases (path == "")) [
    | inl e ↦ rw (e, from_environ) refl
    | inr e ↦ elim (Bool-cases (is_file_name path)) [
      | inl f ↦ rw (e, f, from_environ) refl
      | inr f ↦ rw (e, f, from_environ) refl
    ]
  ]

  find_metallib_lem : find_metallib F ≡ first_file candidates
  unfolding find_metallib
  find_metallib_lem =
      let folder = parent this_file in
      let root = parent (parent folder) in
      found_after (environ "METAL_NATIVE_METALLIB") (
        map folder_candidate
          (folder ∷ join root "build" ∷ join root "build/Release" ∷ join root "build/Debug" ∷ []))

  -- The search is total: it gives the absolute path of the first of its places where a file is, and
  -- where none has a file, `find_metallib` gives None and `get_metallib_path` raises RuntimeError.
  -- The places are the variable METAL_NATIVE_METALLIB, if it is set and not empty, the folder of
  -- the package, and build, build/Release and build/Debug at the root of the repository.
  pub get_metallib_path_lem :
      ((find_metallib F ≡ none)
        × (get_metallib_path F ≡ err runtime_error)
        × All (λ c. c.0 ≡ false) candidates)
      ⊎ ((path : String) × (find_metallib F ≡ some path)
          × (get_metallib_path F ≡ ok path)
          × IsFirst path candidates)
  unfolding get_metallib_path
  get_metallib_path_lem = elim (first_file-cases candidates) [
    | inl (e, a) ↦ let f = find_metallib_lem ∙ e in inl (f, rw (f, get_metallib_path) refl, a)
    | inr (path, e, s) ↦
        let f = find_metallib_lem ∙ e in inr (path, f, rw (f, get_metallib_path) refl, s)
  ]
