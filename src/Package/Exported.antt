-- ===== src/Package/Exported.antt =====
-- metal_native/__init__.py: the names of `__all__` can be read.
use metal_native.Base.{
  String, ◌≡◌, ◌∙◌, inl, inr, refl, sym, ap, Bool, true, false, ◌||◌, Bool-cases, Option-cases,
  some, List, [], ◌∷◌, if◌then◌else◌, ◌==◌, string_eq, contains, beq_refl,
}
use metal_native.Base.Dict.{lookup, lookup-insert}
use metal_native.Base.Exec.{
  Result, ok, err, runtime_error, Exec, >>=_cases, ◌>>=◌, ◌>>◌, modify, pure, try_except,
}
use metal_native.Package.{
  Object, submodule, member, Package, lazy_modules, tensor_names, device_names, utils_names,
  dtype_names, config_names, bind, bind_all, load_order, load_one, load_each, load, global_of,
  get_submodule, get_members, get_dtype, find_member, module_getattr, ensure_initialized, getattr,
  as_attribute_error,
}
use metal_native.Package.Consistent.{contains-All}

-- `__all__` after its first entry, "__version__", which the package binds itself.
abbrev pub exported : List String
exported =
    "Tensor" ∷ "zeros" ∷ "ones" ∷ "empty" ∷ "tensor" ∷ "randn" ∷ "from_numpy" ∷ "from_torch"
    ∷ "from_dlpack" ∷ "device_name" ∷ "is_available" ∷ "device_properties" ∷ "supports_bfloat16"
    ∷ "synchronize" ∷ "empty_cache" ∷ "memory_allocated" ∷ "max_memory_allocated"
    ∷ "reset_peak_stats" ∷ "set_seed" ∷ "manual_seed" ∷ "float32" ∷ "float16" ∷ "bfloat16" ∷ "int64"
    ∷ "int32" ∷ "int16" ∷ "int8" ∷ "uint8" ∷ "bool_" ∷ "MetalNativeConfig" ∷ "get_config"
    ∷ "set_config" ∷ "interop" ∷ "dlpack_bridge" ∷ "accelerate_plugin" ∷ []

-- The tests of `__getattr__`, one of which such a name meets.
abbrev listed : String → Bool
listed name =
    contains lazy_modules name
    || (contains tensor_names name
        || (contains device_names name
            || (contains utils_names name
                || (contains dtype_names name || contains config_names name))))

exported-listed : (name : String) → contains exported name ≡ true → listed name ≡ true
exported-listed name e =
    contains-All (λ n. listed n ≡ true) exported name e
      (
        refl,
        (
          refl,
          (
            refl,
            (
              refl,
              (
                refl,
                (
                  refl,
                  (
                    refl,
                    (
                      refl,
                      (
                        refl,
                        (
                          refl,
                          (
                            refl,
                            (
                              refl,
                              (
                                refl,
                                (
                                  refl,
                                  (
                                    refl,
                                    (
                                      refl,
                                      (
                                        refl,
                                        (
                                          refl,
                                          (
                                            refl,
                                            (
                                              refl,
                                              (
                                                refl,
                                                (
                                                  refl,
                                                  (
                                                    refl,
                                                    (
                                                      refl,
                                                      (
                                                        refl,
                                                        (
                                                          refl,
                                                          (
                                                            refl,
                                                            (
                                                            refl,
                                                            (
                                                            refl,
                                                            (
                                                            refl,
                                                            (
                                                            refl,
                                                            (refl, (refl, (refl, (refl, tt)))),
                                                            ),
                                                            ),
                                                            ),
                                                            ),
                                                          ),
                                                        ),
                                                      ),
                                                    ),
                                                  ),
                                                ),
                                              ),
                                            ),
                                          ),
                                        ),
                                      ),
                                    ),
                                  ),
                                ),
                              ),
                            ),
                          ),
                        ),
                      ),
                    ),
                  ),
                ),
              ),
            ),
          ),
        ),
      )

abbrev pub Returns : {A : Type 0} → Result A × Package → Type 0
Returns {A} r = (a : A) × (r.0 ≡ ok a)

>>=-Returns :
    {A B : Type 0} (m : Exec Package A) (f : A → Exec Package B) (p : Package)
    → Returns (m p)
    → ((a : A) → Returns (f a (m p).1))
    → Returns ((m >>= f) p)
>>=-Returns m f p (b, h) k = >>=_cases f Returns m p (λ a e. k a) (λ x e. let z = sym h ∙ e in cc)

-- A bound name stays bound.
bind_all-bound :
    (m : String) (names : List String) (name : String) (p : Package)
    → ((o : Object) × (lookup name p.names ≡ some o))
    → (o : Object) × (lookup name (bind_all m names p).names ≡ some o)
bind_all-bound m [] name p h = h
bind_all-bound m (x ∷ names) name p (o, h) =
    let l = lookup-insert x name (member m x) p.names in
    bind_all-bound m names name (bind x (member m x) p) (elim (Bool-cases (x == name)) [
      | inl e ↦ (member m x, l ∙ ap (λ b. if b then some (member m x) else lookup name p.names) e)
      | inr e ↦ (o, l ∙ ap (λ b. if b then some (member m x) else lookup name p.names) e ∙ h)
    ])

bind_all-binds :
    (m : String) (names : List String) (name : String) (p : Package)
    → contains names name ≡ true
    → (o : Object) × (lookup name (bind_all m names p).names ≡ some o)
bind_all-binds m [] name p h = cc
bind_all-binds m (x ∷ names) name p h = elim (Bool-cases (name == x)) [
  | inl e ↦
      let same : name ≡ x = (string_eq.decides name x).0 e in
      bind_all-bound m names name (bind x (member m x) p) (
        member m x,
        lookup-insert x name (member m x) p.names
            ∙ ap (λ b. if b then some (member m x) else lookup name p.names)
                (ap (λ n. x == n) same ∙ beq_refl x),
      )
  | inr e ↦ bind_all-binds m names name (bind x (member m x) p) (rw e at h)
]

global_of-Returns :
    (name : String) (p : Package)
    → ((o : Object) × (lookup name p.names ≡ some o))
    → Returns (global_of name p)
global_of-Returns name p (o, h) = rw (h, global_of) (o, refl)

-- Every submodule can be loaded.
module _ (fails : String → Bool) (loads : (m : String) → fails m ≡ false) where
  load_one-Returns : (m : String) (p : Package) → Returns (load_one fails m p)
  unfolding load_one
  load_one-Returns m p = elim (Bool-cases (contains p.loaded m)) [
    | inl e ↦ rw e (tt, refl)
    | inr e ↦ let d = loads m in rw (e, d) (tt, refl)
  ]

  load_each-Returns : (ms : List String) (p : Package) → Returns (load_each fails ms p)
  unfolding load_each
  load_each-Returns [] p = (tt, refl)
  load_each-Returns (m ∷ ms) p =
      >>=-Returns (load_one fails m) (λ u. load_each fails ms) p (load_one-Returns m p)
        (λ u. load_each-Returns ms (load_one fails m p).1)

  load-Returns : (m : String) (p : Package) → Returns (load fails m p)
  unfolding load
  load-Returns m p = load_each-Returns (load_order m) p

  get_members-Returns :
      (m : String) (names : List String) (name : String) (p : Package)
      → contains names name ≡ true
      → Returns (get_members fails m names name p)
  unfolding get_members
  get_members-Returns m names name p h =
      >>=-Returns (load fails m) (λ u. modify (bind_all m names) >> global_of name) p
        (load-Returns m p)
        (λ u.
          let q = (load fails m p).1 in
          global_of-Returns name (bind_all m names q) (bind_all-binds m names name q h))

  find_member-Returns :
      (name : String) (p : Package)
      → contains lazy_modules name ≡ false
      → listed name ≡ true
      → Returns (find_member fails name p)
  unfolding find_member get_dtype
  find_member-Returns name p z h = elim (Bool-cases (contains tensor_names name)) [
    | inl e ↦ rw e (get_members-Returns "tensor" tensor_names name p e)
    | inr a ↦ elim (Bool-cases (contains device_names name)) [
      | inl e ↦ rw (a, e) (get_members-Returns "device" device_names name p e)
      | inr b ↦ elim (Bool-cases (contains utils_names name)) [
        | inl e ↦ rw (a, b, e) (get_members-Returns "utils" utils_names name p e)
        | inr c ↦ elim (Bool-cases (contains dtype_names name)) [
          | inl e ↦
              rw (a, b, c, e)
                (>>=-Returns (load fails "dtypes")
                  (λ u. modify (bind name (member "dtypes" name)) >> pure (member "dtypes" name)) p
                  (load-Returns "dtypes" p) (λ u. (member "dtypes" name, refl)))
          | inr d ↦ elim (Bool-cases (contains config_names name)) [
            | inl e ↦ rw (a, b, c, d, e) (get_members-Returns "config" config_names name p e)
            | inr e ↦ let y = rw (z, a, b, c, d, e) at h in cc
          ]
        ]
      ]
    ]
  ]

  handled-Returns :
      (r : Result Object) (p q : Package)
      → Returns (r, q)
      → Returns (try_except (λ t. (r, q)) (as_attribute_error fails) p)
  handled-Returns (ok o) p q h = h
  handled-Returns (err e) p q (o, h) = cc

  initialized-Returns : (p : Package) → p.extension ≡ true → Returns (ensure_initialized fails p)
  unfolding ensure_initialized
  initialized-Returns p x = (tt, ap (λ b. if b then ok tt else err runtime_error) x)

  module_getattr-Returns :
      (name : String) (p : Package)
      → p.extension ≡ true
      → listed name ≡ true
      → Returns (module_getattr fails name p)
  unfolding module_getattr get_submodule
  module_getattr-Returns name p x h = elim (Bool-cases (contains lazy_modules name)) [
    | inl e ↦ rw e (
        >>=-Returns (load fails name)
          (λ u. modify (bind name (submodule name)) >> pure (submodule name)) p
          (load-Returns name p) (λ u. (submodule name, refl)))
    | inr e ↦ rw e (
        >>=-Returns (ensure_initialized fails)
          (λ u. try_except (find_member fails name) (as_attribute_error fails)) p
          (initialized-Returns p x)
          (λ u.
            let q = (ensure_initialized fails p).1 in
            let r = find_member fails name q in
            handled-Returns r.0 q r.1 (find_member-Returns name q e h)))
  ]

  -- Where the package has an extension module and its submodules load, a read of any name of
  -- `__all__` behind "__version__" returns, whatever is loaded and bound.
  pub getattr-Returns :
      (name : String) (p : Package)
      → p.extension ≡ true
      → contains exported name ≡ true
      → Returns (getattr fails name p)
  unfolding getattr
  getattr-Returns name p x h = elim (Option-cases (lookup name p.names)) [
    | inl e ↦ rw (e, getattr) (module_getattr-Returns name p x (exported-listed name h))
    | inr (o, e) ↦ rw (e, getattr) (o, refl)
  ]
