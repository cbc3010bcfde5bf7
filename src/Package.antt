-- ===== src/Package.antt =====
-- python/metal_native/__init__.py: the names of the package, which are loaded when they are first
-- read. A submodule that is loaded for the first time is bound in the package by its name, as
-- Python's import system does; whether the code of a submodule raises ImportError is a parameter.
pub mod Metallib
pub mod Start
pub mod Binding
pub mod Consistent
pub mod Reads
pub mod Ordering
pub mod Missing
pub mod Exported
mod Tests
use metal_native.Base.{
  ℕ, String, Bool, true, false, Option, none, some, List, [], ◌∷◌, if◌then◌else◌, ◌==◌, string_eq,
  contains,
}
use metal_native.Base.Dict.{Dict, lookup, insert}
use metal_native.Base.Exec.{
  Exn, Result, ok, err, import_error, attribute_error, runtime_error, Exec, pure, raise, modify,
  try_except, ◌>>=◌, ◌>>◌,
}

-- What a name of the package is bound to: a submodule, a name of a submodule, None, or what the code of
-- the package itself or the import system binds to it.
pub data Object : Type 0 where
  submodule : String → Object
  member : String → String → Object
  own : String → Object
  nothing : Object

-- The submodules in `sys.modules`, the global names of the package, and whether `_C` is not None.
pub record Package : Type 0 where
  pub loaded : List String
  pub names : Dict String Object
  pub extension : Bool

-- The names under `if name in (...)`.
abbrev pub lazy_modules : List String
lazy_modules =
    "nn" ∷ "optim" ∷ "interop" ∷ "dlpack_bridge" ∷ "accelerate_plugin" ∷ "dtypes" ∷ "config"
    ∷ "_version" ∷ []

abbrev pub tensor_names : List String
tensor_names =
    "Tensor" ∷ "zeros" ∷ "ones" ∷ "empty" ∷ "tensor" ∷ "randn" ∷ "from_numpy" ∷ "from_torch"
    ∷ "from_dlpack" ∷ []

abbrev pub device_names : List String
device_names = "device_name" ∷ "is_available" ∷ "device_properties" ∷ "supports_bfloat16" ∷ []

abbrev pub utils_names : List String
utils_names =
    "synchronize" ∷ "empty_cache" ∷ "memory_allocated" ∷ "max_memory_allocated" ∷ "reset_peak_stats"
    ∷ "set_seed" ∷ "manual_seed" ∷ []

abbrev pub dtype_names : List String
dtype_names =
    "float32" ∷ "float16" ∷ "bfloat16" ∷ "int64" ∷ "int32" ∷ "int16" ∷ "int8" ∷ "uint8" ∷ "bool_"
    ∷ []

abbrev pub config_names : List String
config_names = "MetalNativeConfig" ∷ "get_config" ∷ "set_config" ∷ []

-- `globals()[name] = object`
abbrev pub bind : String → Object → Package → Package
bind name object p = record p { names = insert name object p.names }

-- `globals().update({...})`, each name bound to the object of that name in submodule `m`
abbrev pub bind_all : String → List String → Package → Package
bind_all m [] p = p
bind_all m (name ∷ names) p = bind_all m names (bind name (member m name) p)

-- The submodules that the import of `m` loads, in the order in which they are finished: nn imports
-- tensor and dtypes at its head, tensor imports dtypes, and the others none.
abbrev pub load_order : String → List String
load_order m =
    if m == "nn"
    then "dtypes" ∷ "tensor" ∷ "nn" ∷ []
    else if m == "tensor"
    then "dtypes" ∷ "tensor" ∷ []
    else m ∷ []

-- The object that a global name holds, for a name that was just bound.
abbrev pub global_of : String → Package → Result Object × Package
global_of name p = elim (lookup name p.names) [
  | none ↦ (err attribute_error, p)
  | some o ↦ (ok o, p)
]

-- `fails m`: the code of submodule `m` raises ImportError.
module _ (fails : String → Bool) where
  abbrev pub finish : String → Package → Package
  finish m p = record p { loaded = m ∷ p.loaded; names = insert m (submodule m) p.names }

  unfoldable pub load_one : String → Exec Package (Unit {0})
  load_one m p =
      if contains p.loaded m
      then (ok tt, p)
      else if fails m
      then (err import_error, p)
      else (ok tt, finish m p)

  unfoldable pub load_each : List String → Exec Package (Unit {0})
  unfolding load_one
  load_each [] = pure tt
  load_each (m ∷ ms) = load_one m >> load_each ms

  -- `import_module(f'.{m}')`, or the import that a `from` begins with
  unfoldable pub load : String → Exec Package (Unit {0})
  unfolding load_each
  load m = load_each (load_order m)

  -- The branch of a lazy submodule: an ImportError leaves it.
  unfoldable pub get_submodule : String → Exec Package Object
  unfolding load
  get_submodule name = load name >> (modify (bind name (submodule name)) >> pure (submodule name))

  -- `from .m import a, b, ...`, `globals().update({'a': a, 'b': b, ...})`, `globals()[name]`
  unfoldable pub get_members : String → List String → String → Exec Package Object
  unfolding load
  get_members m names name = load m >> (modify (bind_all m names) >> global_of name)

  -- `from . import dtypes`, `globals()[name] = getattr(dtypes, name)`
  unfoldable pub get_dtype : String → Exec Package Object
  unfolding load
  get_dtype name =
      load "dtypes" >> (modify (bind name (member "dtypes" name)) >> pure (member "dtypes" name))

  -- What is under `try`, and the raise at the end of `__getattr__`.
  unfoldable pub find_member : String → Exec Package Object
  unfolding get_members get_dtype
  find_member name =
      if contains tensor_names name
      then get_members "tensor" tensor_names name
      else if contains device_names name
      then get_members "device" device_names name
      else if contains utils_names name
      then get_members "utils" utils_names name
      else if contains dtype_names name
      then get_dtype name
      else if contains config_names name
      then get_members "config" config_names name
      else raise attribute_error

  abbrev pub as_attribute_error : Exn → Exec Package Object
  as_attribute_error import_error = raise attribute_error
  as_attribute_error e = raise e

  unfoldable pub ensure_initialized : Exec Package (Unit {0})
  ensure_initialized p = (if p.extension then ok tt else err runtime_error, p)

  -- `__getattr__`
  unfoldable pub module_getattr : String → Exec Package Object
  unfolding get_submodule find_member ensure_initialized
  module_getattr name =
      if contains lazy_modules name
      then get_submodule name
      else ensure_initialized >> try_except (find_member name) as_attribute_error

  -- `getattr(metal_native, name)`: `__getattr__` is called where the name is not bound.
  unfoldable pub getattr : String → Exec Package Object
  unfolding module_getattr
  getattr name p = elim (lookup name p.names) [ some o ↦ (ok o, p) | none ↦ module_getattr name p ]

-- How the import of the package goes: no extension module, one that is there but whose initialization
-- raises before `_metallib` is loaded, or one that is initialized.
pub data Startup : Type 0 where
  no_extension not_initialized initialized : Startup

abbrev pub has_extension : Startup → Bool
has_extension no_extension = false
has_extension not_initialized = true
has_extension initialized = true

-- The names that the code of the package binds while it is imported, to the same object in every
-- package, and before them those that the import system binds.
abbrev pub own_names : List String
own_names =
    "__name__" ∷ "__doc__" ∷ "__package__" ∷ "__loader__" ∷ "__spec__" ∷ "__path__" ∷ "__file__"
    ∷ "__cached__" ∷ "__builtins__" ∷ "__annotations__" ∷ "Optional" ∷ "Tuple" ∷ "Union" ∷ "List"
    ∷ "sys" ∷ "__all__" ∷ "__version__" ∷ "__version_info__" ∷ "_ensure_initialized" ∷ "__getattr__"
    ∷ "_check_installation" ∷ "print_device_info" ∷ "_initialize" ∷ []

abbrev pub bind_own : List String → Dict String Object
bind_own [] = []
bind_own (name ∷ names) = (name, own name) ∷ bind_own names

-- `_C` is the extension module, or None.
abbrev pub extension_object : Bool → Object
extension_object true = submodule "_C"
extension_object false = nothing

-- `_import_error` is None, or the exception of the import.
abbrev pub import_error_object : Bool → Object
import_error_object true = nothing
import_error_object false = own "_import_error"

abbrev pub imported_names : Bool → Dict String Object
imported_names extension =
    ("_version", submodule "_version")
    ∷ ("_C", extension_object extension)
    ∷ ("_import_error", import_error_object extension)
    ∷ bind_own own_names

-- The package after its import.
unfoldable pub imported : Startup → Package
imported no_extension = record {
  loaded = "_version" ∷ [];
  names = imported_names false;
  extension = false;
}
imported not_initialized = record {
  loaded = "_C" ∷ "_version" ∷ [];
  names = imported_names true;
  extension = true;
}
imported initialized = record {
  loaded = "_metallib" ∷ "_C" ∷ "_version" ∷ [];
  names = ("_metallib", submodule "_metallib") ∷ imported_names true;
  extension = true;
}
