-- ===== src/Config/Tests.antt =====
-- Runs of config.py, and its theorems at concrete inputs.
use metal_native.Base.{arith, ℕ, suc, ◌-◌, ◌≡◌, refl, true, false, none, some, List, [], ◌∷◌, ◌++◌}
use metal_native.Base.Dict.{lookup, insert}
use metal_native.Base.Exec.{ok, err, value_error, pure}
use metal_native.Base.Text.{Text, text_eq, codes}
use metal_native.Config.{bool}
use metal_native.Config.Defaults.{
  default_config, allocator_config, backpressure_config, dispatch_config, kernel_cache_config,
  profiling_config,
}
use metal_native.Config.Env.{Python, Conf, allocator, get_section, convert, from_env}
use metal_native.Config.Kinds.{LikeNew, from_env-LikeNew}
use metal_native.Config.Assign.{Names, from_env-last}
use metal_native.Config.Dicts.{IsConfig, to_dict, from_dict, from_dict-to_dict}
use metal_native.Config.Files.{
  Files, dictionary, another, from_json, from_yaml, expected, after_import, from_files_lem,
}
use metal_native.Config.Global.{Runtime}

-- No text is a float, and every attribute that is no field is missing.
abbrev python : Python
python = record { Float = ℕ; two = 2; float_of = λ t. none; special = λ a v. none }

abbrev env : List (Text × Text)
env =
    (codes "HOME", codes "x")
    ∷ (codes "METAL_NATIVE_ALLOCATOR_ENABLE_POOLING", codes "no")
    ∷ (codes "METAL_NATIVE_KERNEL_CACHE_CACHE_DIR", codes "x")
    ∷ []

abbrev after_env : Conf python
after_env = record (default_config 2) {
  allocator = insert (codes "enable_pooling") (bool false) ((default_config 2).allocator);
}

-- The variable for a field of `kernel_cache` is read and has no effect.
env_runs : from_env python env ≡ ok after_env
unfolding from_env default_config
env_runs = refl

bad_number_raises :
    from_env python ((codes "METAL_NATIVE_DISPATCH_COMMAND_BUFFER_POOL_SIZE", codes "8.5") ∷ [])
    ≡ err value_error
unfolding from_env default_config
bad_number_raises = refl

-- `from_env` succeeds on `env`, and so the result is like a new configuration.
from_env-LikeNew_example : LikeNew python after_env
from_env-LikeNew_example = from_env-LikeNew python env after_env env_runs

Names-pool_size : Names python allocator (codes "enable_pooling") (codes "Allocator_ENABLE_pooling")
Names-pool_size = record {
  section = codes "allocator";
  lowered = refl;
  lacks = ground arith;
  named = refl;
}

-- A later variable in other letters turns the pooling on again.
from_env-last_example :
    (d : Conf python) × (from_env python
        (env ++ (codes "METAL_NATIVE_Allocator_ENABLE_pooling", codes "YES") ∷ [])
      ≡ ok d)
    × (lookup (codes "enable_pooling") (get_section python allocator d) ≡ some (bool true))
unfolding convert default_config
from_env-last_example =
    from_env-last python env allocator (codes "enable_pooling") (codes "Allocator_ENABLE_pooling")
      (codes "YES") after_env (bool false) (bool true) env_runs Names-pool_size refl refl

after_env-IsConfig : IsConfig 2 after_env
unfolding default_config allocator_config backpressure_config dispatch_config kernel_cache_config
    profiling_config
after_env-IsConfig = record {
  allocator = record { same = refl; once = ground arith };
  backpressure = record { same = refl; once = ground arith };
  dispatch = record { same = refl; once = ground arith };
  kernel_cache = record { same = refl; once = ground arith };
  profiling = record { same = refl; once = ground arith };
}

from_dict-to_dict_example : from_dict 2 (to_dict after_env) ≡ ok after_env
from_dict-to_dict_example = from_dict-to_dict 2 after_env after_env-IsConfig

abbrev new : Runtime ℕ
new = record { objects = []; global_config = some 4 }

-- A file system whose files hold the configuration, as JSON, and nothing, as YAML; its state counts
-- the open files.
abbrev files : Files ℕ
files = record {
  World = ℕ;
  File = Text;
  open_file = λ path n. (ok path, suc n);
  close = λ f n. (ok tt, n - 1);
  json_load = λ f. pure (dictionary (to_dict after_env));
  import_yaml = pure tt;
  safe_load = λ f. pure another;
}

from_files_lem_example :
    (from_json 2 files (codes "c.json") 0
      ≡ (expected 2 files (ok (dictionary (to_dict after_env))), 0))
    × (from_yaml 2 files (codes "c.json") 0
        ≡ after_import 2 files (ok tt) 0 (expected 2 files (ok another), 0))
from_files_lem_example =
    from_files_lem 2 files (codes "c.json") (codes "c.json") (ok tt) 0 0 1 0 0 refl refl refl refl
