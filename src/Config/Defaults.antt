-- ===== src/Config/Defaults.antt =====
-- The dataclasses of config.py: their fields with the defaults.
use metal_native.Base.{ℕ, ◌*◌, true, false, [], ◌∷◌, map}
use metal_native.Base.Int.{pos}
use metal_native.Base.Text.{codes}
use metal_native.Config.{Section, Config, Value, int, float, bool, str, none_value, ints}

-- `two` is the float 2.0.
module _ {F : Type 0} (two : F) where
  abbrev number : ℕ → Value F
  number n = int (pos n)

  unfoldable pub allocator_config : Section F
  allocator_config =
      (codes "initial_heap_size", number (256 * 1024 * 1024))
      ∷ (codes "max_heap_size", number (8 * 1024 * 1024 * 1024))
      ∷ (codes "growth_policy", str (codes "exponential"))
      ∷ (codes "growth_factor", float two)
      ∷ (codes "growth_increment", number (256 * 1024 * 1024))
      ∷ (codes "enable_pooling", bool true)
      ∷ (codes "small_buffer_threshold", number (1024 * 1024))
      ∷ []

  unfoldable pub backpressure_config : Section F
  backpressure_config =
      (codes "soft_limit", number 64)
      ∷ (codes "hard_limit", number 128)
      ∷ (codes "throttle_poll_us", number 100)
      ∷ (codes "enable_adaptive", bool true)
      ∷ []

  unfoldable pub dispatch_config : Section F
  dispatch_config =
      (codes "use_commit_and_continue", bool true)
      ∷ (codes "max_commands_per_buffer", number 32)
      ∷ (codes "release_gil", bool true)
      ∷ (codes "enable_concurrent_dispatch", bool true)
      ∷ (codes "command_buffer_pool_size", number 8)
      ∷ []

  unfoldable pub kernel_cache_config : Section F
  kernel_cache_config =
      (codes "cache_dir", none_value)
      ∷ (codes "max_cache_size", number (1024 * 1024 * 1024))
      ∷ (codes "enable_bucketing", bool true)
      ∷ (
        codes "bucket_sizes",
        ints (map pos (64 ∷ 128 ∷ 256 ∷ 512 ∷ 1024 ∷ 2048 ∷ 4096 ∷ 8192 ∷ [])),
      )
      ∷ (codes "enable_persistent_cache", bool true)
      ∷ (codes "cache_version", str (codes "0.1.0"))
      ∷ []

  unfoldable pub profiling_config : Section F
  profiling_config =
      (codes "enable_signposts", bool false)
      ∷ (codes "enable_capture", bool false)
      ∷ (codes "track_callstacks", bool false)
      ∷ (codes "log_kernel_launches", bool false)
      ∷ (codes "detailed_memory_stats", bool false)
      ∷ []

  -- `MetalNativeConfig()`
  unfoldable pub default_config : Config F
  unfolding allocator_config backpressure_config dispatch_config kernel_cache_config
      profiling_config
  default_config = record {
    allocator = allocator_config;
    backpressure = backpressure_config;
    dispatch = dispatch_config;
    kernel_cache = kernel_cache_config;
    profiling = profiling_config;
  }
