-- ===== src/Config/Global.antt =====
-- config.py: the global instance, by the address of the configuration object.
use metal_native.Base.{
  ℕ, ◌≡◌, refl, Option, none, some, List, [], ◌∷◌, ◌++◌, length, get_elem?, arith,
}
use metal_native.Config.{Config}
use metal_native.Config.Defaults.{default_config}

-- The configuration objects made so far, and `_global_config`.
pub record Runtime (F : Type 0) : Type 0 where
  pub objects : List (Config F)
  pub global_config : Option ℕ

module _ {F : Type 0} where
  -- `get_config()` returns the object itself.
  unfoldable pub get_config : F → Runtime F → ℕ × Runtime F
  get_config two r = elim r.global_config [
    | some a ↦ (a, r)
    | none ↦ (
      length r.objects,
      record {
        objects = r.objects ++ default_config two ∷ [];
        global_config = some (length r.objects);
      },
    )
  ]

  unfoldable pub set_config : Option ℕ → Runtime F → Runtime F
  set_config a r = record r { global_config = a }

  get_elem?-append :
      (xs : List (Config F)) (c : Config F) → get_elem? (xs ++ c ∷ []) (length xs) ≡ some c
  get_elem?-append [] c = refl
  get_elem?-append (x ∷ xs) c = get_elem?-append xs c

  -- A second `get_config` gives the same object and changes nothing; after `set_config(None)` it
  -- gives a new object with the default values.
  get_config_lem :
      (two : F) (r : Runtime F)
      → let (a, s) = get_config two r in
        let (b, t) = get_config two (set_config none s) in
        (get_config two s ≡ (a, s))
        × (b ≡ length s.objects)
        × (get_elem? t.objects b ≡ some (default_config two))
  unfolding get_config set_config
  get_config_lem two r = (
    ground arith,
    ground arith,
    get_elem?-append ((get_config two r).1).objects (default_config two),
  )
