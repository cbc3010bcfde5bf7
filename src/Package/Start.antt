-- ===== src/Package/Start.antt =====
-- metal_native/__init__.py: `_initialize`, which the import of the package runs, and the check of the
-- installation. The functions of `_C` and the search for the shader library are a parameter.
use metal_native.Base.{
  String, ◌≡◌, refl, Bool, true, false, Option, none, some, List, [], ◌∷◌, if◌then◌else◌, ◌==◌,
  string_eq,
}
use metal_native.Base.Exec.{Exn, Result, ok, err, Exec, pure, try_except, ◌>>=◌, ◌>>◌}
use metal_native.Base.Text.{Text}
use metal_native.Native.{NativeModule}
use metal_native.Native.Device.{is_available, device_name, get_device_info}

-- What `_check_installation` returns, as the message says it.
pub data Check : Type 0 where
  not_loaded not_available : Check
  ready : Text → Check
  failed : Exn → Check

-- What `print_device_info` prints, to stdout or to stderr.
pub data Printed : Type 0 where
  status : Text → Printed
  info : Text → Printed
  warning : Check → Printed
  info_error : Exn → Printed

-- `extension` is false where `_C` is None.
module _ (C : NativeModule) (extension : Bool) where
  abbrev pub check_device : Exec C.World Check
  check_device = do
    available ← is_available C
    elim available [
      | false ↦ pure not_available
      | true ↦ device_name C >>= λ name. pure (ready name)
    ]

  -- `_check_installation`
  unfoldable pub check_installation : Exec C.World Check
  check_installation =
      if extension then try_except check_device (λ e. pure (failed e)) else pure not_loaded

  abbrev pub print_checked : (C.Properties → Result Text) → Check → Exec C.World (List Printed)
  print_checked show (ready name) =
      try_except (get_device_info C show >>= λ text. pure (status name ∷ info text ∷ []))
        (λ e. pure (status name ∷ info_error e ∷ []))
  print_checked show check = pure (warning check ∷ [])

  unfoldable pub print_device_info : (C.Properties → Result Text) → Exec C.World (List Printed)
  unfolding check_installation
  print_device_info show = check_installation >>= print_checked show

  module _ (c_initialize : Exec C.World (Unit {0}))
      (c_load_library : String → Exec C.World (Unit {0}))
      (search : Exec C.World (Option String)) where
    -- `if metallib_path: _C.load_library(metallib_path)`
    abbrev pub load_found : Option String → Exec C.World (Unit {0})
    load_found none = pure tt
    load_found (some path) = if path == "" then pure tt else c_load_library path

    -- `_initialize`, with the exception that its warning tells, if it prints one; `search` is the import
    -- of `find_metallib` and its call.
    unfoldable pub initialize : Exec C.World (Option Exn)
    initialize =
        if extension
        then try_except (c_initialize >> (search >>= load_found) >> pure none) (λ e. pure (some e))
        else pure none

module _ {S : Type 0} {A : Type 0} (m : Exec S A) (handler : Exn → Exec S A) where
  outcome_returns :
      (r : Result A) (s t : S)
      → ((e : Exn) (u : S) → (a : A) × ((handler e u).0 ≡ ok a))
      → (a : A) × ((try_except (λ u. (r, s)) handler t).0 ≡ ok a)
  outcome_returns (ok a) s t h = (a, refl)
  outcome_returns (err e) s t h = h e s

  -- A `try` returns whose handler does.
  try_except_returns :
      (s : S)
      → ((e : Exn) (u : S) → (a : A) × ((handler e u).0 ≡ ok a))
      → (a : A) × ((try_except m handler s).0 ≡ ok a)
  try_except_returns s h = let r = m s in outcome_returns r.0 r.1 s h

module _ (C : NativeModule) where
  check_installation_returns :
      (extension : Bool) (w : C.World)
      → (check : Check) × ((check_installation C extension w).0 ≡ ok check)
  unfolding check_installation
  check_installation_returns true w =
      try_except_returns (check_device C true) (λ e. pure (failed e)) w (λ e u. (failed e, refl))
  check_installation_returns false w = (not_loaded, refl)

  module _ (show : C.Properties → Result Text) where
    print_checked_returns :
        (extension : Bool) (check : Check) (w : C.World)
        → (lines : List Printed) × ((print_checked C extension show check w).0 ≡ ok lines)
    print_checked_returns extension (ready name) w =
        try_except_returns (get_device_info C show >>= λ text. pure (status name ∷ info text ∷ []))
          (λ e. pure (status name ∷ info_error e ∷ [])) w
          (λ e u. (status name ∷ info_error e ∷ [], refl))
    print_checked_returns extension not_loaded w = (warning not_loaded ∷ [], refl)
    print_checked_returns extension not_available w = (warning not_available ∷ [], refl)
    print_checked_returns extension (failed e) w = (warning (failed e) ∷ [], refl)

    after_check :
        (extension : Bool) (r : Result Check) (w : C.World)
        → ((check : Check) × (r ≡ ok check))
        → (lines : List Printed) × ((((λ t. (r, t)) >>= print_checked C extension show) w).0
            ≡ ok lines)
    after_check extension (ok check) w h = print_checked_returns extension check w
    after_check extension (err e) w (check, h) = cc

    initialize_returns :
        (extension : Bool) (c_initialize : Exec C.World (Unit {0}))
        (c_load_library : String → Exec C.World (Unit {0})) (search : Exec C.World (Option String))
        (w : C.World)
        → (warned : Option Exn) × ((initialize C extension c_initialize c_load_library search w).0
            ≡ ok warned)
    unfolding initialize
    initialize_returns true c_initialize c_load_library search w =
        try_except_returns
          (c_initialize
            >> (search >>= load_found C true c_initialize c_load_library search)
            >> pure none)
          (λ e. pure (some e)) w (λ e u. (some e, refl))
    initialize_returns false c_initialize c_load_library search w = (none, refl)

    -- Whatever the extension module does, and also without it, the initialization that the import
    -- of the package runs, the check of the installation, and the print of the device all return.
    start_returns :
        (extension : Bool) (c_initialize : Exec C.World (Unit {0}))
        (c_load_library : String → Exec C.World (Unit {0})) (search : Exec C.World (Option String))
        (w : C.World)
        → ((warned : Option Exn) × ((initialize C extension c_initialize c_load_library search w).0
              ≡ ok warned))
          × ((check : Check) × ((check_installation C extension w).0 ≡ ok check))
          × ((lines : List Printed) × ((print_device_info C extension show w).0 ≡ ok lines))
    unfolding initialize print_device_info
    start_returns extension c_initialize c_load_library search w =
        let r = check_installation C extension w in
        (
          initialize_returns extension c_initialize c_load_library search w,
          check_installation_returns extension w,
          after_check extension r.0 r.1 (check_installation_returns extension w),
        )
