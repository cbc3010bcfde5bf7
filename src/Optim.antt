-- ===== src/Optim.antt =====
-- python/metal_native/optim: the optimizers Adam, AdamW and SGD over parameter objects.
pub mod Numeric
pub mod Param
pub mod Adam
pub mod Sgd
pub mod Fixture
