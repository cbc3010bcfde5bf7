-- ===== src/Package/Ordering.antt =====
-- metal_native/__init__.py: the name "tensor" is a function of the submodule and the submodule.
use metal_native.Base.{string_eq}
