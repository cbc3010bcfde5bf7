-- ===== src/Package/Consistent.antt =====
-- metal_native/__init__.py: every read of a name gives the same object, but for the name "tensor".
use metal_native.Base.{
  String, ◌≡◌, ◌≢◌, ◌⊎◌, ◌∙◌, inl, inr, refl, sym, ap, Bool, true, Bool-cases, Option-cases, some,
  List, [], ◌∷◌, if◌then◌else◌, ◌==◌, string_eq, contains, All,
}
use metal_native.Base.Dict.{lookup, insert, lookup-insert}
use metal_native.Base.Exec.{
  Result, ok, err, Exn, Exec, >>=_cases, ◌>>=◌, ◌>>◌, modify, pure, try_except,
}
use metal_native.Package.{
  Object, submodule, member, own, Package, tensor_names, device_names, utils_names, dtype_names,
  config_names, own_names, extension_object, import_error_object, bind, bind_all, finish, load_one,
  load_each, load, global_of, get_submodule, get_members, get_dtype, find_member,
}

-- The object that a name stands for, in packages with the extension module or without.
unfoldable pub meaning : Bool → String → Object
meaning extension name =
    if name == "_C"
    then extension_object extension
    else if name == "_import_error"
    then import_error_object extension
    else if contains tensor_names name
    then member "tensor" name
    else if contains device_names name
    then member "device" name
    else if contains utils_names name
    then member "utils" name
    else if contains dtype_names name
    then member "dtypes" name
    else if contains config_names name
    then member "config" name
    else if contains own_names name
    then own name
    else submodule name

pub contains-All {ℓ} :
    (P : String → Type ℓ) (xs : List String) (a : String) → contains xs a ≡ true → All P xs → P a
contains-All P [] a h w = cc
contains-All P (x ∷ xs) a h w = elim (Bool-cases (a == x)) [
  | inl e ↦ rw ((string_eq.decides a x).0 e) w.0
  | inr e ↦ contains-All P xs a (rw e at h) w.1
]

module _ (extension : Bool) where
  -- Every bound name but "tensor" is bound to what it stands for.
  abbrev pub IsConsistent : Package → Type 0
  IsConsistent p =
      (name : String) (o : Object)
      → name ≢ "tensor"
      → lookup name p.names ≡ some o
      → o ≡ meaning extension name

  -- A name may be bound to this object.
  abbrev pub Fits : String → Object → Type 0
  Fits name o = (name ≡ "tensor") ⊎ (o ≡ meaning extension name)

  module _ (name n : String) (o v : Object) (d : n ≢ "tensor") (same : name ≡ n)
      (e : some o ≡ some v) where
    pub bound-meaning : Fits name o → v ≡ meaning extension n
    bound-meaning (inl t) = absurd (d (sym same ∙ t))
    bound-meaning (inr h) = cc

  pub insert-IsConsistent :
      (p q : Package) (name : String) (o : Object)
      → q.names ≡ insert name o p.names
      → Fits name o
      → IsConsistent p
      → IsConsistent q
  insert-IsConsistent p q name o e f h n v d l =
      let m = sym (lookup-insert name n o p.names) ∙ ap (lookup n) (sym e) ∙ l in
      elim (Bool-cases (name == n)) [
        | inl same ↦ bound-meaning name n o v d ((string_eq.decides name n).0 same) (rw same at m) f
        | inr other ↦ h n v d (rw other at m)
      ]

  bind_all-IsConsistent :
      (m : String) (names : List String) (p : Package)
      → All (λ name. Fits name (member m name)) names
      → IsConsistent p
      → IsConsistent (bind_all m names p)
  bind_all-IsConsistent m [] p f h = h
  bind_all-IsConsistent m (name ∷ names) p f h =
      bind_all-IsConsistent m names (bind name (member m name) p) f.1
        (insert-IsConsistent p (bind name (member m name) p) name (member m name) refl f.0 h)

  -- What an action leaves is consistent if what it found was.
  abbrev pub Keeps : {A : Type 0} → Exec Package A → Type 0
  Keeps m = (p : Package) → IsConsistent p → IsConsistent (m p).1

  pub >>=-Keeps :
      {A B : Type 0} (m : Exec Package A) (f : A → Exec Package B)
      → Keeps m
      → ((a : A) → Keeps (f a))
      → Keeps (m >>= f)
  >>=-Keeps m f h k p c =
      >>=_cases f (λ r. IsConsistent r.1) m p (λ a e. k a (m p).1 (h p c)) (λ x e. h p c)

  global_of-Keeps : (name : String) → Keeps (global_of name)
  global_of-Keeps name p c = elim (Option-cases (lookup name p.names)) [
    | inl e ↦ rw (e, global_of) c
    | inr (o, e) ↦ rw (e, global_of) c
  ]

  module _ (fails : String → Bool) where
    load_one-Keeps : (m : String) → Fits m (submodule m) → Keeps (load_one fails m)
    unfolding load_one
    load_one-Keeps m f p c = elim (Bool-cases (contains p.loaded m)) [
      | inl e ↦ rw e c
      | inr e ↦ elim (Bool-cases (fails m)) [
        | inl x ↦ rw (e, x) c
        | inr x ↦ rw (e, x) (insert-IsConsistent p (finish fails m p) m (submodule m) refl f c)
      ]
    ]

    load_each-Keeps :
        (ms : List String) → All (λ m. Fits m (submodule m)) ms → Keeps (load_each fails ms)
    unfolding load_each
    load_each-Keeps [] f p c = c
    load_each-Keeps (m ∷ ms) f p c =
        >>=-Keeps (load_one fails m) (λ u. load_each fails ms) (load_one-Keeps m f.0)
          (λ u. load_each-Keeps ms f.1) p c

    load-Keeps : (m : String) → Fits m (submodule m) → Keeps (load fails m)
    unfolding load meaning
    load-Keeps m f = elim (Bool-cases (m == "nn")) [
      | inl e ↦
          rw e (
            load_each-Keeps ("dtypes" ∷ "tensor" ∷ "nn" ∷ [])
              (inr refl, (inl refl, (inr refl, tt))))
      | inr e ↦ elim (Bool-cases (m == "tensor")) [
        | inl t ↦ rw (e, t) (load_each-Keeps ("dtypes" ∷ "tensor" ∷ []) (inr refl, (inl refl, tt)))
        | inr t ↦ rw (e, t) (load_each-Keeps (m ∷ []) (f, tt))
      ]
    ]

    modify-Keeps :
        (name : String) (o : Object) → Fits name o → Keeps (modify (bind name o) >> pure o)
    modify-Keeps name o f p c = insert-IsConsistent p (bind name o p) name o refl f c

    pub get_submodule-Keeps :
        (name : String) → Fits name (submodule name) → Keeps (get_submodule fails name)
    unfolding get_submodule
    get_submodule-Keeps name f =
        >>=-Keeps (load fails name)
          (λ u. modify (bind name (submodule name)) >> pure (submodule name)) (load-Keeps name f)
          (λ u. modify-Keeps name (submodule name) f)

    get_members-Keeps :
        (m : String) (names : List String) (name : String)
        → Fits m (submodule m)
        → All (λ n. Fits n (member m n)) names
        → Keeps (get_members fails m names name)
    unfolding get_members
    get_members-Keeps m names name f a =
        >>=-Keeps (load fails m) (λ u. modify (bind_all m names) >> global_of name) (load-Keeps m f)
          (λ u p c. global_of-Keeps name (bind_all m names p) (bind_all-IsConsistent m names p a c))

    get_dtype-Keeps :
        (name : String) → Fits name (member "dtypes" name) → Keeps (get_dtype fails name)
    unfolding get_dtype meaning
    get_dtype-Keeps name f =
        >>=-Keeps (load fails "dtypes")
          (λ u. modify (bind name (member "dtypes" name)) >> pure (member "dtypes" name))
          (load-Keeps "dtypes" (inr refl)) (λ u. modify-Keeps name (member "dtypes" name) f)

    pub find_member-Keeps : (name : String) → Keeps (find_member fails name)
    unfolding find_member meaning
    find_member-Keeps name = elim (Bool-cases (contains tensor_names name)) [
      | inl e ↦ rw e (
          get_members-Keeps "tensor" tensor_names name (inl refl) (
            inr refl,
            (
              inr refl,
              (
                inr refl,
                (inr refl, (inl refl, (inr refl, (inr refl, (inr refl, (inr refl, tt)))))),
              ),
            ),
          ))
      | inr a ↦ elim (Bool-cases (contains device_names name)) [
        | inl e ↦
            rw (a, e)
              (get_members-Keeps "device" device_names name (inr refl)
                (inr refl, (inr refl, (inr refl, (inr refl, tt)))))
        | inr b ↦ elim (Bool-cases (contains utils_names name)) [
          | inl e ↦
              rw (a, b, e)
                (get_members-Keeps "utils" utils_names name (inr refl) (
                  inr refl,
                  (inr refl, (inr refl, (inr refl, (inr refl, (inr refl, (inr refl, tt)))))),
                ))
          | inr c ↦ elim (Bool-cases (contains dtype_names name)) [
            | inl e ↦
                rw (a, b, c, e)
                  (get_dtype-Keeps name (
                    contains-All (λ n. Fits n (member "dtypes" n)) dtype_names name e
                      (
                        inr refl,
                        (
                          inr refl,
                          (
                            inr refl,
                            (
                              inr refl,
                              (inr refl, (inr refl, (inr refl, (inr refl, (inr refl, tt))))),
                            ),
                          ),
                        ),
                      )))
            | inr d ↦ elim (Bool-cases (contains config_names name)) [
              | inl e ↦
                  rw (a, b, c, d, e)
                    (get_members-Keeps "config" config_names name (inr refl)
                      (inr refl, (inr refl, (inr refl, tt))))
              | inr e ↦ rw (a, b, c, d, e) (λ p h. h)
            ]
          ]
        ]
      ]
    ]

    by_outcome-IsConsistent :
        {A : Type 0} (handler : Exn → Exec Package A)
        → ((e : Exn) → Keeps (handler e))
        → (r : Result A) (p q : Package) → IsConsistent q
        → IsConsistent (try_except (λ t. (r, q)) handler p).1
    by_outcome-IsConsistent handler k (ok a) p q d = d
    by_outcome-IsConsistent handler k (err e) p q d = k e q d

    pub try_except-Keeps :
        {A : Type 0} (m : Exec Package A) (handler : Exn → Exec Package A)
        → Keeps m
        → ((e : Exn) → Keeps (handler e))
        → Keeps (try_except m handler)
    try_except-Keeps m handler h k p c = by_outcome-IsConsistent handler k (m p).0 p (m p).1 (h p c)
