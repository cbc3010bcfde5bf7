-- ===== src/Package/Reads.antt =====
-- metal_native/__init__.py: reads of names in any order, from the import of the package on.
use metal_native.Base.{
  String, ◌≡◌, ◌≢◌, ◌∙◌, ◌⊎◌, ap, inl, inr, refl, sym, Bool, true, false, Bool-cases, Option-cases,
  some, [], ◌∷◌, ◌==◌, string_eq, contains, All,
}
use metal_native.Base.Dict.{Dict, lookup}
use metal_native.Base.Exec.{ok, Exn, import_error, try_except}
use metal_native.Package.{
  Object, submodule, Package, lazy_modules, module_getattr, find_member, ensure_initialized,
  getattr, imported, as_attribute_error, Startup, no_extension, not_initialized, initialized,
  has_extension, own_names, bind_own, imported_names,
}
use mathlib.Core.Path.{subst}
use metal_native.Package.Binding.{Bound, getattr-Bound, getattr-bound}
use metal_native.Package.Consistent.{
  meaning, IsConsistent, Fits, Keeps, bound-meaning, contains-All, >>=-Keeps, get_submodule-Keeps,
  find_member-Keeps, try_except-Keeps,
}

module _ (extension : Bool) where
  entries-IsConsistent :
      (d : Dict String Object)
      → All (λ e. Fits extension e.0 e.1) d
      → (name : String) (o : Object) → name ≢ "tensor"
      → lookup name d ≡ some o
      → o ≡ meaning extension name
  entries-IsConsistent [] w name o n h = cc
  entries-IsConsistent ((k, v) ∷ d) w name o n h = elim (Bool-cases (k == name)) [
    | inl same ↦
        bound-meaning extension k name v o n ((string_eq.decides k name).0 same) (rw same at h) w.0
    | inr other ↦ entries-IsConsistent d w.1 name o n (rw other at h)
  ]

  own-Fits : All (λ e. Fits extension e.0 e.1) (bind_own own_names)
  unfolding meaning
  own-Fits = (
    inr refl,
    (
      inr refl,
      (
        inr refl,
        (
          inr refl,
          (
            inr refl,
            (
              inr refl,
              (
                inr refl,
                (
                  inr refl,
                  (
                    inr refl,
                    (
                      inr refl,
                      (
                        inr refl,
                        (
                          inr refl,
                          (
                            inr refl,
                            (
                              inr refl,
                              (
                                inr refl,
                                (
                                  inr refl,
                                  (
                                    inr refl,
                                    (
                                      inr refl,
                                      (
                                        inr refl,
                                        (inr refl, (inr refl, (inr refl, (inr refl, tt)))),
                                      ),
                                    ),
                                  ),
                                ),
                              ),
                            ),
                          ),
                        ),
                      ),
                    ),
                  ),
                ),
              ),
            ),
          ),
        ),
      ),
    ),
  )

  imported_names-Fits : All (λ e. Fits extension e.0 e.1) (imported_names extension)
  unfolding meaning
  imported_names-Fits = (inr refl, (inr refl, (inr refl, own-Fits)))

module _ (fails : String → Bool) (extension : Bool) where
  lazy-Fits :
      (name : String) → contains lazy_modules name ≡ true → Fits extension name (submodule name)
  unfolding meaning
  lazy-Fits name e =
      contains-All (λ n. Fits extension n (submodule n)) lazy_modules name e
        (
          inr refl,
          (inr refl, (inr refl, (inr refl, (inr refl, (inr refl, (inr refl, (inr refl, tt))))))),
        )

  as_attribute_error-Keeps : (e : Exn) → Keeps extension (as_attribute_error fails e)
  as_attribute_error-Keeps import_error p c = c
  as_attribute_error-Keeps _ p c = c

  module_getattr-Keeps : (name : String) → Keeps extension (module_getattr fails name)
  unfolding module_getattr ensure_initialized
  module_getattr-Keeps name = elim (Bool-cases (contains lazy_modules name)) [
    | inl e ↦ rw e (get_submodule-Keeps extension fails name (lazy-Fits name e))
    | inr e ↦ rw e (
        >>=-Keeps extension (ensure_initialized fails)
          (λ u. try_except (find_member fails name) (as_attribute_error fails)) (λ p c. c)
          (λ u.
            try_except-Keeps extension fails (find_member fails name) (as_attribute_error fails)
              (find_member-Keeps extension fails name) as_attribute_error-Keeps))
  ]

  getattr-Keeps : (name : String) → Keeps extension (getattr fails name)
  unfolding getattr
  getattr-Keeps name p c = elim (Option-cases (lookup name p.names)) [
    | inl e ↦ rw (e, getattr) (module_getattr-Keeps name p c)
    | inr (o, e) ↦ rw (e, getattr) c
  ]

module _ (fails : String → Bool) where
  -- The packages that reads of names lead to, from the import on; failed reads count.
  pub data Reached (startup : Startup) : Package → Type 0 where
    start : Reached startup (imported startup)
    read :
        {p : Package} (name : String) → Reached startup p → Reached startup (getattr fails name p).1

  imported-IsConsistent :
      (startup : Startup) → IsConsistent (has_extension startup) (imported startup)
  unfolding imported meaning
  imported-IsConsistent no_extension =
      entries-IsConsistent false (imported_names false) (imported_names-Fits false)
  imported-IsConsistent not_initialized =
      entries-IsConsistent true (imported_names true) (imported_names-Fits true)
  imported-IsConsistent initialized =
      entries-IsConsistent true ((imported initialized).names) (inr refl, imported_names-Fits true)

  getattr-meaning :
      (extension : Bool) (name : String) (o : Object) (p q : Package)
      → name ≢ "tensor"
      → IsConsistent extension p
      → getattr fails name p ≡ (ok o, q)
      → o ≡ meaning extension name
  getattr-meaning extension name o p q n c h =
      let k : IsConsistent extension q =
        subst (λ r. IsConsistent extension r.1) h (getattr-Keeps fails extension name p c) in
      k name o n (subst (Bound name) h (getattr-Bound fails name p))

  Reached-IsConsistent :
      {startup : Startup} {p : Package} → Reached startup p → IsConsistent (has_extension startup) p
  Reached-IsConsistent {startup} start = imported-IsConsistent startup
  Reached-IsConsistent {startup} (read {p} name r) =
      getattr-Keeps fails (has_extension startup) name p (Reached-IsConsistent r)

  -- Packages that both have the extension module or both have none, or a name other than the two that
  -- the import binds by that.
  abbrev pub Comparable : Startup → Startup → String → Type 0
  Comparable x y name =
      (has_extension x ≡ has_extension y)
      ⊎ (((name == "_C") ≡ false) × ((name == "_import_error") ≡ false))

  Comparable-meaning :
      (x y : Startup) (name : String)
      → Comparable x y name
      → meaning (has_extension y) name ≡ meaning (has_extension x) name
  unfolding meaning
  Comparable-meaning x y name (inl e) = ap (λ b. meaning b name) (sym e)
  Comparable-meaning x y name (inr (c, i)) = rw (c, i) refl

  -- Any two reads of a name other than "tensor" that return, after any reads of names and however the
  -- imports of the packages went, return the same object, the one that the name stands for; of "_C"
  -- and "_import_error" this is said of packages that both have the extension module or both have
  -- none. A read that returns leaves the name bound, so that the next one is no call of
  -- `__getattr__` and changes nothing.
  pub getattr_consistent :
      (x y : Startup) (p q p' q' : Package) (name : String) (o u : Object)
      → Reached x p
      → Reached y q
      → name ≢ "tensor"
      → Comparable x y name
      → getattr fails name p ≡ (ok o, p')
      → getattr fails name q ≡ (ok u, q')
      → (o ≡ meaning (has_extension x) name) × (u ≡ o) × (getattr fails name p' ≡ (ok o, p'))
  getattr_consistent x y p q p' q' name o u r t n s g h =
      let a = getattr-meaning (has_extension x) name o p p' n (Reached-IsConsistent r) g in
      let b = getattr-meaning (has_extension y) name u q q' n (Reached-IsConsistent t) h in
      (
        a,
        b ∙ Comparable-meaning x y name s ∙ sym a,
        getattr-bound fails name o p' (subst (Bound name) g (getattr-Bound fails name p)),
      )
