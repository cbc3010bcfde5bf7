-- ===== src/Package/Missing.antt =====
-- metal_native/__init__.py: how a read of a name fails.
use metal_native.Base.{
  ◌∙◌, ap, true, false, String, ◌≡◌, ◌⊎◌, inl, inr, refl, Bool, false, Bool-cases, Option-cases,
  none, List, [], ◌∷◌, if◌then◌else◌, string_eq, contains,
}
use mathlib.Core.Path.{subst}
use metal_native.Base.Dict.{lookup}
use metal_native.Base.Exec.{
  Result, ok, err, Exn, import_error, attribute_error, runtime_error, Exec, >>=_cases, then_run,
  ◌>>=◌, ◌>>◌, modify, pure, try_except,
}
use metal_native.Package.{
  Object, submodule, member, Package, lazy_modules, tensor_names, device_names, utils_names,
  dtype_names, config_names, bind, bind_all, load_order, load_one, load_each, load, global_of,
  get_submodule, get_members, get_dtype, find_member, module_getattr, ensure_initialized, getattr,
  as_attribute_error,
}

-- What is raised, and the package after it, are so.
abbrev Fails : {A : Type 0} → (Exn → Package → Type 0) → Result A × Package → Type 0
Fails R (ok a, q) = Unit
Fails R (err e, q) = R e q

abbrev Raises : {A : Type 0} → (Exn → Package → Type 0) → Exec Package A → Type 0
Raises R m = (p : Package) → Fails R (m p)

Fails-map :
    {A : Type 0} (R T : Exn → Package → Type 0) (r : Result A × Package)
    → ((e : Exn) (q : Package) → R e q → T e q)
    → Fails R r
    → Fails T r
Fails-map R T (ok a, q) k f = tt
Fails-map R T (err e, q) k f = k e q f

err-Fails :
    {A : Type 0} (R : Exn → Package → Type 0) (r : Result A × Package) (e : Exn)
    → Fails R r
    → r.0 ≡ err e
    → R e r.1
err-Fails R (ok a, q) e f h = cc
err-Fails R (err x, q) e f h = let same : x ≡ e = cc in subst (λ y. R y q) same f

>>=-Raises :
    {A B : Type 0} (R : Exn → Package → Type 0) (m : Exec Package A) (f : A → Exec Package B)
    → Raises R m
    → ((a : A) → Raises R (f a))
    → Raises R (m >>= f)
>>=-Raises R m f h k p =
    >>=_cases f (Fails R) m p (λ a e. k a (m p).1) (λ x e. err-Fails R (m p) x (h p) e)

abbrev Import : Exn → Package → Type 0
Import e q = e ≡ import_error

-- An import that failed, or a name that is not there.
abbrev Absent : Exn → Package → Type 0
Absent e q = (e ≡ import_error) ⊎ (e ≡ attribute_error)

Import-Absent : {A : Type 0} (m : Exec Package A) → Raises Import m → Raises Absent m
Import-Absent m h p = Fails-map Import Absent (m p) (λ e q i. inl i) (h p)

global_of-Absent : (name : String) → Raises Absent (global_of name)
global_of-Absent name p = elim (Option-cases (lookup name p.names)) [
  | inl e ↦ rw (e, global_of) (inr refl)
  | inr (o, e) ↦ rw (e, global_of) tt
]

module _ (fails : String → Bool) where
  load_one-Import : (m : String) → Raises Import (load_one fails m)
  unfolding load_one
  load_one-Import m p = elim (Bool-cases (contains p.loaded m)) [
    | inl e ↦ rw e tt
    | inr e ↦ elim (Bool-cases (fails m)) [ inl x ↦ rw (e, x) refl | inr x ↦ rw (e, x) tt ]
  ]

  load_each-Import : (ms : List String) → Raises Import (load_each fails ms)
  unfolding load_each
  load_each-Import [] p = tt
  load_each-Import (m ∷ ms) p =
      >>=-Raises Import (load_one fails m) (λ u. load_each fails ms) (load_one-Import m)
        (λ u. load_each-Import ms) p

  load-Import : (m : String) → Raises Import (load fails m)
  unfolding load
  load-Import m = load_each-Import (load_order m)

  get_submodule-Import : (name : String) → Raises Import (get_submodule fails name)
  unfolding get_submodule
  get_submodule-Import name =
      >>=-Raises Import (load fails name)
        (λ u. modify (bind name (submodule name)) >> pure (submodule name)) (load-Import name)
        (λ u p. tt)

  get_members-Absent :
      (m : String) (names : List String) (name : String)
      → Raises Absent (get_members fails m names name)
  unfolding get_members
  get_members-Absent m names name =
      >>=-Raises Absent (load fails m) (λ u. modify (bind_all m names) >> global_of name)
        (Import-Absent (load fails m) (load-Import m))
        (λ u p. global_of-Absent name (bind_all m names p))

  find_member-Absent : (name : String) → Raises Absent (find_member fails name)
  unfolding find_member get_dtype
  find_member-Absent name = elim (Bool-cases (contains tensor_names name)) [
    | inl e ↦ rw e (get_members-Absent "tensor" tensor_names name)
    | inr a ↦ elim (Bool-cases (contains device_names name)) [
      | inl e ↦ rw (a, e) (get_members-Absent "device" device_names name)
      | inr b ↦ elim (Bool-cases (contains utils_names name)) [
        | inl e ↦ rw (a, b, e) (get_members-Absent "utils" utils_names name)
        | inr c ↦ elim (Bool-cases (contains dtype_names name)) [
          | inl e ↦
              rw (a, b, c, e)
                (>>=-Raises Absent (load fails "dtypes")
                  (λ u. modify (bind name (member "dtypes" name)) >> pure (member "dtypes" name))
                  (Import-Absent (load fails "dtypes") (load-Import "dtypes")) (λ u p. tt))
          | inr d ↦ elim (Bool-cases (contains config_names name)) [
            | inl e ↦ rw (a, b, c, d, e) (get_members-Absent "config" config_names name)
            | inr e ↦ rw (a, b, c, d, e) (λ p. inr refl)
          ]
        ]
      ]
    ]
  ]

  -- The exception is an AttributeError.
  abbrev Attribute : Exn → Package → Type 0
  Attribute e q = e ≡ attribute_error

  outcome-Attribute :
      (r : Result Object) (p q : Package)
      → Fails Absent (r, q)
      → Fails Attribute (try_except (λ t. (r, q)) (as_attribute_error fails) p)
  outcome-Attribute (ok o) p q f = tt
  outcome-Attribute (err e) p q (inl h) = rw h refl
  outcome-Attribute (err e) p q (inr h) = rw h refl

  -- How a read of the name may fail from the package `p`.
  abbrev pub Failure : String → Package → Exn → Package → Type 0
  Failure name p e q =
      if contains lazy_modules name
      then e ≡ import_error
      else if p.extension
      then e ≡ attribute_error
      else (e ≡ runtime_error) × (q ≡ p)

  ensure_error :
      (p : Package) (e : Exn)
      → p.extension ≡ false
      → (ensure_initialized fails p).0 ≡ err e
      → e ≡ runtime_error
  unfolding ensure_initialized
  ensure_error p e x i = let z = rw x at i in cc

  module_getattr-Failure :
      (name : String) (p : Package) → Fails (Failure name p) (module_getattr fails name p)
  unfolding module_getattr ensure_initialized
  module_getattr-Failure name p = elim (Bool-cases (contains lazy_modules name)) [
    | inl e ↦ rw e (
        Fails-map Import (Failure name p) (get_submodule fails name p) (λ x q i. rw (e, Failure) i)
          (get_submodule-Import name p))
    | inr e ↦ rw e (
        >>=_cases (λ u. try_except (find_member fails name) (as_attribute_error fails))
          (Fails (Failure name p)) (ensure_initialized fails) p
          (λ u i. elim (Bool-cases p.extension) [
            | inl x ↦
                let r = find_member fails name p in
                let found = try_except (find_member fails name) (as_attribute_error fails) p in
                Fails-map Attribute (Failure name p) found (λ y q i. rw (e, x, Failure) i)
                  (outcome-Attribute r.0 p r.1 (find_member-Absent name p))
            | inr x ↦ let z = rw x at i in cc
          ])
          (λ y i. elim (Bool-cases p.extension) [
            | inl x ↦ let z = rw x at i in cc
            | inr x ↦ let same = ensure_error p y x i in rw (e, x, same) (refl, refl)
          ]))
  ]

  -- A read that raises is of an unbound name. Of a submodule in the list it raises ImportError; of
  -- any other name it raises AttributeError where the package has an extension module, and
  -- RuntimeError, with nothing changed, where it has none, so also for a name that the package does
  -- not define.
  pub getattr_errors :
      (name : String) (p q : Package) (e : Exn)
      → getattr fails name p ≡ (err e, q)
      → (lookup name p.names ≡ none) × Failure name p e q
  unfolding getattr
  getattr_errors name p q e h = elim (Option-cases (lookup name p.names)) [
    | inl n ↦
        (n, subst (Fails (Failure name p)) (rw (n, getattr) at h) (module_getattr-Failure name p))
    | inr (o, s) ↦ let z = rw (s, getattr) at h in cc
  ]

  find_member_undefined :
      (name : String) (p : Package)
      → (contains tensor_names name ≡ false)
        × (contains device_names name ≡ false)
        × (contains utils_names name ≡ false)
        × (contains dtype_names name ≡ false)
        × (contains config_names name ≡ false)
      → find_member fails name p ≡ (err attribute_error, p)
  unfolding find_member
  find_member_undefined name p (t, d, u, f, c) = rw (t, d, u, f, c) refl

  -- A name that is not bound and in none of the lists is not found, and nothing is loaded for it.
  pub getattr_undefined :
      (name : String) (p : Package)
      → lookup name p.names ≡ none
      → p.extension ≡ true
      → (contains lazy_modules name ≡ false)
        × (contains tensor_names name ≡ false)
        × (contains device_names name ≡ false)
        × (contains utils_names name ≡ false)
        × (contains dtype_names name ≡ false)
        × (contains config_names name ≡ false)
      → getattr fails name p ≡ (err attribute_error, p)
  unfolding getattr module_getattr ensure_initialized
  getattr_undefined name p n x (l, t, d, u, f, c) =
      let handler = as_attribute_error fails in
      let search : Exec Package Object = try_except (find_member fails name) handler in
      let started : ensure_initialized fails p ≡ (ok tt, p) =
        ap (λ b. (if b then ok tt else err runtime_error, p)) x in
      let missing = find_member_undefined name p (t, d, u, f, c) in
      rw (n, getattr, l)
        (ap (then_run (λ i. search)) started ∙ ap (λ r. try_except (λ q. r) handler p) missing)
