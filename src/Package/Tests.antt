-- ===== src/Package/Tests.antt =====
-- metal_native/__init__.py and _metallib.py on packages in which every submodule loads, and on one
-- where the shader library stands in build/Release.
use metal_native.Base.{
  String, ◌≡◌, ◌⊎◌, inl, refl, Bool, true, false, none, some, List, [], ◌∷◌, All, ◌==◌, string_eq,
}
use metal_native.Base.Dict.{lookup}
use metal_native.Base.Exec.{ok, err, runtime_error, attribute_error}
use metal_native.Package.{member, Package, getattr, imported, initialized, no_extension}
use metal_native.Package.Reads.{start, read, getattr_consistent}
use metal_native.Package.Consistent.{meaning}
use metal_native.Package.Missing.{Failure, getattr_errors}
use metal_native.Package.Exported.{Returns, getattr-Returns}
use metal_native.Package.Metallib.{
  Files, find_metallib, get_metallib_path, candidates, IsFirst, get_metallib_path_lem,
}

abbrev loads_all : String → Bool
loads_all m = false

-- The package after a read of "zeros", and after a read of "nn" and then of "zeros".
abbrev after_zeros : Package
after_zeros = (getattr loads_all "zeros" (imported initialized)).1

abbrev after_nn : Package
after_nn = (getattr loads_all "nn" (imported initialized)).1

abbrev after_both : Package
after_both = (getattr loads_all "zeros" after_nn).1

reads_zeros :
    getattr loads_all "zeros" (imported initialized) ≡ (ok (member "tensor" "zeros"), after_zeros)
unfolding getattr imported
reads_zeros = refl

reads_zeros_later : getattr loads_all "zeros" after_nn ≡ (ok (member "tensor" "zeros"), after_both)
unfolding getattr imported
reads_zeros_later = refl

getattr_consistent_example :
    (member "tensor" "zeros" ≡ meaning true "zeros")
    × (member "tensor" "zeros" ≡ member "tensor" "zeros")
    × (getattr loads_all "zeros" after_zeros ≡ (ok (member "tensor" "zeros"), after_zeros))
getattr_consistent_example =
    getattr_consistent loads_all initialized initialized (imported initialized) after_nn after_zeros
      after_both "zeros" (member "tensor" "zeros") (member "tensor" "zeros") start (read "nn" start)
      (λ h. cc) (inl refl) reads_zeros reads_zeros_later

needs_extension :
    getattr loads_all "float32" (imported no_extension) ≡ (err runtime_error, imported no_extension)
unfolding getattr imported
needs_extension = refl

getattr_errors_example :
    (lookup "float32" (imported no_extension).names ≡ none)
    × Failure loads_all "float32" (imported no_extension) runtime_error (imported no_extension)
getattr_errors_example =
    getattr_errors loads_all "float32" (imported no_extension) (imported no_extension) runtime_error
      needs_extension

unknown_name : (getattr loads_all "float64" (imported initialized)).0 ≡ err attribute_error
unfolding getattr imported
unknown_name = refl

imported_extension : (imported initialized).extension ≡ true
unfolding imported
imported_extension = refl

getattr-Returns_example : Returns (getattr loads_all "get_config" (imported initialized))
getattr-Returns_example =
    getattr-Returns loads_all (λ m. refl) "get_config" (imported initialized) imported_extension
      refl

-- A path is the list of its parts, from the last one on.
abbrev library : List String
library = "metal_native.metallib" ∷ "shaders" ∷ "build/Release" ∷ "repo" ∷ []

abbrev files : Files
files = record {
  Place = List String;
  environ = λ name. some "";
  is_file_name = λ path. true;
  abspath = λ path. path;
  this_file = "_metallib.py" ∷ "metal_native" ∷ "python" ∷ "repo" ∷ [];
  parent = λ p. elim p [ [] ↦ [] | x ∷ q ↦ q ];
  join = λ p name. name ∷ p;
  is_file = λ p. elim p [
    | [] ↦ false
    | a ∷ q ↦ elim q [ [] ↦ false | b ∷ r ↦ elim r [ [] ↦ false | c ∷ s ↦ c == "build/Release" ] ]
  ];
  absolute = λ p. elim p [ [] ↦ "" | a ∷ q ↦ "/repo/build/Release/shaders/metal_native.metallib" ];
}

finds_release : find_metallib files ≡ some "/repo/build/Release/shaders/metal_native.metallib"
unfolding find_metallib
finds_release = refl

get_metallib_path_lem_example :
    ((find_metallib files ≡ none)
      × (get_metallib_path files ≡ err runtime_error)
      × All (λ c. c.0 ≡ false) (candidates files))
    ⊎ ((path : String) × (find_metallib files ≡ some path)
        × (get_metallib_path files ≡ ok path)
        × IsFirst path (candidates files))
get_metallib_path_lem_example = get_metallib_path_lem files
