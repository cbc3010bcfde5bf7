-- ===== src/Package/Binding.antt =====
-- metal_native/__init__.py: a read that returns leaves its name bound to the object.
use metal_native.Base.{
  String, ◌≡◌, ◌∙◌, inl, inr, ap, Bool, Bool-cases, Option-cases, some, List, if◌then◌else◌,
  string_eq, contains, beq_refl,
}
use metal_native.Base.Dict.{lookup, lookup-insert}
use metal_native.Base.Exec.{
  Result, ok, err, Exn, import_error, Exec, >>=_cases, ◌>>=◌, ◌>>◌, modify, pure, try_except,
}
use metal_native.Package.{
  Object, submodule, member, Package, lazy_modules, tensor_names, device_names, utils_names,
  dtype_names, config_names, bind, bind_all, load, global_of, get_submodule, get_members, get_dtype,
  find_member, module_getattr, ensure_initialized, getattr, as_attribute_error,
}

-- Where the read returned, the name is bound to what it returned.
abbrev pub Bound : String → Result Object × Package → Type 0
Bound name (ok o, p) = lookup name p.names ≡ some o
Bound name (err e, p) = Unit

-- The action ends so from every package.
abbrev Binds : String → Exec Package Object → Type 0
Binds name m = (p : Package) → Bound name (m p)

>>=-Binds :
    {A : Type 0} (name : String) (m : Exec Package A) (f : A → Exec Package Object)
    → ((a : A) → Binds name (f a))
    → Binds name (m >>= f)
>>=-Binds name m f k p = >>=_cases f (Bound name) m p (λ a e. k a (m p).1) (λ x e. tt)

bind-Binds : (name : String) (o : Object) → Binds name (modify (bind name o) >> pure o)
bind-Binds name o p =
    lookup-insert name name o p.names
    ∙ ap (λ b. if b then some o else lookup name p.names) (beq_refl name)

global_of-Binds : (name : String) → Binds name (global_of name)
global_of-Binds name p = elim (Option-cases (lookup name p.names)) [
  | inl e ↦ rw (e, global_of) tt
  | inr (o, e) ↦ rw (e, global_of) e
]

module _ (fails : String → Bool) where
  get_members-Binds :
      (m : String) (names : List String) (name : String)
      → Binds name (get_members fails m names name)
  unfolding get_members
  get_members-Binds m names name =
      >>=-Binds name (load fails m) (λ u. modify (bind_all m names) >> global_of name)
        (λ u p. global_of-Binds name (bind_all m names p))

  find_member-Binds : (name : String) → Binds name (find_member fails name)
  unfolding find_member get_dtype
  find_member-Binds name = elim (Bool-cases (contains tensor_names name)) [
    | inl e ↦ rw e (get_members-Binds "tensor" tensor_names name)
    | inr a ↦ elim (Bool-cases (contains device_names name)) [
      | inl e ↦ rw (a, e) (get_members-Binds "device" device_names name)
      | inr b ↦ elim (Bool-cases (contains utils_names name)) [
        | inl e ↦ rw (a, b, e) (get_members-Binds "utils" utils_names name)
        | inr c ↦ elim (Bool-cases (contains dtype_names name)) [
          | inl e ↦
              rw (a, b, c, e)
                (>>=-Binds name (load fails "dtypes")
                  (λ u. modify (bind name (member "dtypes" name)) >> pure (member "dtypes" name))
                  (λ u. bind-Binds name (member "dtypes" name)))
          | inr d ↦ elim (Bool-cases (contains config_names name)) [
            | inl e ↦ rw (a, b, c, d, e) (get_members-Binds "config" config_names name)
            | inr e ↦ rw (a, b, c, d, e) (λ p. tt)
          ]
        ]
      ]
    ]
  ]

  handled-Binds : (name : String) (e : Exn) → Binds name (as_attribute_error fails e)
  handled-Binds name import_error p = tt
  handled-Binds name _ p = tt

  outcome-Bound :
      (name : String) (r : Result Object) (p q : Package)
      → Bound name (r, q)
      → Bound name (try_except (λ t. (r, q)) (as_attribute_error fails) p)
  outcome-Bound name (ok o) p q h = h
  outcome-Bound name (err e) p q h = handled-Binds name e q

  module_getattr-Binds : (name : String) → Binds name (module_getattr fails name)
  unfolding module_getattr get_submodule
  module_getattr-Binds name = elim (Bool-cases (contains lazy_modules name)) [
    | inl e ↦ rw e (
        >>=-Binds name (load fails name)
          (λ u. modify (bind name (submodule name)) >> pure (submodule name))
          (λ u. bind-Binds name (submodule name)))
    | inr e ↦ rw e (
        >>=-Binds name (ensure_initialized fails)
          (λ u. try_except (find_member fails name) (as_attribute_error fails))
          (λ u p.
            let r = find_member fails name p in
            outcome-Bound name r.0 p r.1 (find_member-Binds name p)))
  ]

  pub getattr-Bound : (name : String) → Binds name (getattr fails name)
  unfolding getattr
  getattr-Bound name p = elim (Option-cases (lookup name p.names)) [
    | inl e ↦ rw (e, getattr) (module_getattr-Binds name p)
    | inr (o, e) ↦ rw (e, getattr) e
  ]

  pub getattr-bound :
      (name : String) (o : Object) (p : Package)
      → lookup name p.names ≡ some o
      → getattr fails name p ≡ (ok o, p)
  unfolding getattr
  getattr-bound name o p h = rw (h, getattr)
