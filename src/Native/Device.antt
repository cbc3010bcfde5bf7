-- ===== src/Native/Device.antt =====
-- python/metal_native/device.py
use metal_native.Base.{Bool, true, false, Option, none, some, ◌==◌, if◌then◌else◌}
use metal_native.Base.Exec.{
  Result, ok, err, runtime_error, value_error, Exec, raise, pure, lift, ◌>>=◌, ◌>>◌,
}
use metal_native.Base.Text.{Text, text_eq, codes}
use metal_native.Native.{NativeModule, if_missing}

module _ (C : NativeModule) where
  unfoldable pub device_name : Exec C.World Text
  device_name = if_missing (C.import_c >> C.device_name) (raise runtime_error)

  unfoldable pub is_available : Exec C.World Bool
  is_available = if_missing (C.import_c >> C.is_available) (pure false)

  unfoldable pub device_properties : Exec C.World C.Properties
  device_properties = if_missing (C.import_c >> C.device_properties) (raise runtime_error)

  unfoldable pub supports_bfloat16 : Exec C.World Bool
  supports_bfloat16 = if_missing (C.import_c >> C.supports_bfloat16) (raise runtime_error)

  -- What `get_device_info` does by `is_available`.
  abbrev pub info_if : (C.Properties → Result Text) → Bool → Exec C.World Text
  info_if show false = pure (codes "Metal: Not available")
  info_if show true = device_properties >>= λ props. lift (show props)

  -- How the properties become text is a parameter; it may raise, as a format of a non-number does.
  unfoldable pub get_device_info : (C.Properties → Result Text) → Exec C.World Text
  unfolding is_available device_properties
  get_device_info show = is_available >>= info_if show

-- `Device(device).device`
unfoldable pub device_init : Option Text → Result Text
device_init none = ok (codes "metal")
device_init (some d) = if d == codes "metal" then ok (codes "metal") else err value_error
