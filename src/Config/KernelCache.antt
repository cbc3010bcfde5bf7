-- ===== src/Config/KernelCache.antt =====
-- config.py: which sections a variable can name. The section is what stands before the first
-- underscore, so it has none itself.
use metal_native.Base.{◌≡◌, ◌≢◌, refl, Option, none, some, arith}
use metal_native.Base.Text.{
  Text, text_eq, text_beq_iff, codes, lower, strip_prefix, split_once-Lacks, Lacks,
}
use metal_native.Config.Env.{Python, kernel_cache, section_named, parse_rest, parse_key}

section_named-kernel_cache :
    (s : Text) → section_named s ≡ some kernel_cache → s ≡ codes "kernel_cache"
section_named-kernel_cache s h = ground (arith, text_beq_iff s (codes "kernel_cache"))

parse_rest-Lacks :
    (P : Python) (o : Option Text) (section attr : Text)
    → parse_rest P o ≡ some (section, attr)
    → Lacks b'_' section
parse_rest-Lacks P none section attr h = cc
parse_rest-Lacks P (some rest) section attr h = split_once-Lacks b'_' (lower rest) section attr h

-- No variable names the section `kernel_cache`.
pub parse_key-kernel_cache :
    (P : Python) (key section attr : Text)
    → parse_key P key ≡ some (section, attr)
    → section_named section ≢ some kernel_cache
parse_key-kernel_cache P key section attr h e =
    let lacks : Lacks b'_' (codes "kernel_cache") =
      rw (section_named-kernel_cache section e) at
        (parse_rest-Lacks P (strip_prefix (codes "METAL_NATIVE_") key) section attr h) in
    lacks.1.1.1.1.1.1.0 refl
