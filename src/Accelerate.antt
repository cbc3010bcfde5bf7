-- ===== src/Accelerate.antt =====
-- python/metal_native/accelerate_plugin.py: the backend for Accelerate. PyTorch's modules, and whether
-- Accelerate can be imported, are a parameter.
pub mod Buffers
pub mod Backends
mod Tests
use metal_native.Base.{
  ℕ, String, Bool, true, false, not, Option, none, some, List, [], ◌∷◌, if◌then◌else◌,
}
use metal_native.Base.Exec.{
  Exn, import_error, runtime_error, Exec, pure, raise, raise_if, try_except, ◌>>=◌, ◌>>◌,
}
use metal_native.Native.{NativeModule, if_missing}
use metal_native.Tensor.{Backend}
use metal_native.Interop.{PyTorch, a_tensor, from_torch, to_torch}

-- The numbers of `get_memory_info`.
pub record MemoryInfo : Type 0 where
  pub allocated : ℕ
  pub reserved : ℕ
  pub peak : ℕ

abbrev pub no_memory : MemoryInfo
no_memory = record { allocated = 0; reserved = 0; peak = 0 }

module _ (C : NativeModule) where
  -- `is_available`, which is also the class method
  unfoldable pub is_available : Exec C.World Bool
  is_available = if_missing (C.import_c >> C.is_available) (pure false)

  -- `MetalNativeAccelerator()`
  unfoldable pub accelerator_init : Exec C.World (Unit {0})
  unfolding is_available
  accelerator_init = is_available >>= λ available. raise_if (not available) runtime_error

  unfoldable pub synchronize : Exec C.World (Unit {0})
  synchronize = if_missing (C.import_c >> C.synchronize) (pure tt)

  unfoldable pub empty_cache : Exec C.World (Unit {0})
  empty_cache = if_missing (C.import_c >> C.empty_cache) (pure tt)

  abbrev pub read_memory : Exec C.World MemoryInfo
  read_memory = do
    u ← C.import_c
    allocated ← C.memory_allocated
    reserved ← C.memory_allocated
    peak ← C.max_memory_allocated
    pure (record { allocated = allocated; reserved = reserved; peak = peak })

  unfoldable pub get_memory_info : Exec C.World MemoryInfo
  get_memory_info = if_missing read_memory (pure no_memory)

abbrev pub unless_import_error : {W : Type 0} → Exn → Exec W (Unit {0})
unless_import_error import_error = pure tt
unless_import_error e = raise e

-- `_register_backend`, with the two imports of Accelerate given
unfoldable pub register_backend : {W : Type 0} → Exec W (Unit {0}) → Exec W (Unit {0})
register_backend import_accelerate = try_except import_accelerate unless_import_error

-- What `prepare_model` calls of PyTorch's modules. The listings are taken when their loops begin.
pub record Modules (B : Backend) (T : PyTorch B) : Type 1 where
  pub Model : Type 0
  pub Param : Type 0
  pub import_nn : Exec B.World (Unit {0})
  pub named_parameters : Model → Exec B.World (List (String × Option Param))
  pub named_buffers : Model → Exec B.World (List (String × Option T.Obj))
  pub get_data : Param → Exec B.World T.Obj
  pub set_data : Param → T.Obj → Exec B.World (Unit {0})
  pub register_buffer : Model → String → T.Obj → Exec B.World (Unit {0})

module _ (B : Backend) (T : PyTorch B) (M : Modules B T) where
  -- `to_torch(from_torch(tensor))`
  abbrev pub through_metal : T.Obj → Exec B.World T.Obj
  unfolding from_torch to_torch
  through_metal o = from_torch B T o none >>= λ t. to_torch B T (a_tensor t)

  abbrev pub move_parameter : Option M.Param → Exec B.World (Unit {0})
  move_parameter none = pure tt
  move_parameter (some p) = do
    data_before ← M.get_data p
    moved ← through_metal data_before
    M.set_data p moved

  abbrev pub move_buffer : M.Model → String → Option T.Obj → Exec B.World (Unit {0})
  move_buffer model name none = pure tt
  move_buffer model name (some b) = through_metal b >>= M.register_buffer model name

  unfoldable pub move_parameters : List (String × Option M.Param) → Exec B.World (Unit {0})
  move_parameters [] = pure tt
  move_parameters ((name, p) ∷ ps) = move_parameter p >> move_parameters ps

  unfoldable pub move_buffers : M.Model → List (String × Option T.Obj) → Exec B.World (Unit {0})
  move_buffers model [] = pure tt
  move_buffers model ((name, b) ∷ bs) = move_buffer model name b >> move_buffers model bs

  unfoldable pub prepare_model : M.Model → Exec B.World M.Model
  unfolding move_parameters move_buffers
  prepare_model model = do
    u ← M.import_nn
    parameters ← M.named_parameters model
    v ← move_parameters parameters
    buffers ← M.named_buffers model
    w ← move_buffers model buffers
    pure model

-- `prepare_optimizer`
unfoldable pub prepare_optimizer : {A : Type 0} → A → A
prepare_optimizer optimizer = optimizer
