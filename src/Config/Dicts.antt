-- ===== src/Config/Dicts.antt =====
-- config.py: `to_dict` and `from_dict`.
use metal_native.Base.{◌≡◌, ◌∙◌, refl, sym, true, false, none, some, [], ◌∷◌, arith, ap, All}
use metal_native.Base.Dict.{Dict, lookup, has_key, keys, NodupKeys}
use metal_native.Base.Exec.{Result, ok, err}
use metal_native.Base.Text.{Text, text_eq, text_beq_iff, codes}
use metal_native.Config.{Section, Config, Value, Given, mapping, all_known, fill, construct}
use metal_native.Config.Defaults.{
  allocator_config, backpressure_config, dispatch_config, kernel_cache_config, profiling_config,
}

infixl 5 ◌>>=◌
abbrev ◌>>=◌ : {A B : Type 0} → Result A → (A → Result B) → Result B
ok a >>= f = f a
err e >>= f = err e

module _ {F : Type 0} where
  -- `to_dict`; `asdict` gives the fields of a section in order.
  unfoldable pub to_dict : Config F → Dict Text (Given F)
  to_dict c =
      (codes "allocator", mapping c.allocator)
      ∷ (codes "backpressure", mapping c.backpressure)
      ∷ (codes "dispatch", mapping c.dispatch)
      ∷ (codes "kernel_cache", mapping c.kernel_cache)
      ∷ (codes "profiling", mapping c.profiling)
      ∷ []

  -- `data.get(name, {})`
  abbrev get_given : Text → Dict Text (Given F) → Given F
  get_given name d = elim (lookup name d) [ none ↦ mapping [] | some g ↦ g ]

  unfoldable pub from_dict : F → Dict Text (Given F) → Result (Config F)
  unfolding construct
  from_dict two d = do
    a ← construct (allocator_config two) (get_given (codes "allocator") d)
    b ← construct (backpressure_config two) (get_given (codes "backpressure") d)
    c ← construct (dispatch_config two) (get_given (codes "dispatch") d)
    k ← construct (kernel_cache_config two) (get_given (codes "kernel_cache") d)
    p ← construct (profiling_config two) (get_given (codes "profiling") d)
    ok (record { allocator = a; backpressure = b; dispatch = c; kernel_cache = k; profiling = p })

  -- Each entry of `s` is what `kwargs` holds under its key.
  abbrev Within : Section F → Text × Value F → Type 0
  Within kwargs (k, v) = lookup k kwargs ≡ some v

  fill-Within :
      (fields s kwargs : Section F)
      → keys fields ≡ keys s
      → All (Within kwargs) s
      → fill fields kwargs ≡ s
  fill-Within [] [] kwargs e w = refl
  fill-Within [] (x ∷ s) kwargs e w = cc
  fill-Within (x ∷ fields) [] kwargs e w = cc
  fill-Within ((j, d) ∷ fields) ((k, v) ∷ s) kwargs e w =
      ground (arith, w.0, fill-Within fields s kwargs)

  -- What holds within a dict holds within one with a new key in front.
  Within-cons :
      (k : Text) (v : Value F) (kwargs s : Section F)
      → has_key k s ≡ false
      → All (Within kwargs) s
      → All (Within ((k, v) ∷ kwargs)) s
  Within-cons k v kwargs [] n w = tt
  Within-cons k v kwargs ((j, u) ∷ s) n w = (
    ground (arith, w.0, text_beq_iff j k, text_beq_iff k j),
    Within-cons k v kwargs s (ground (arith, text_beq_iff j k)) w.1,
  )

  Within-self : (s : Section F) → NodupKeys s → All (Within s) s
  Within-self [] u = tt
  Within-self ((k, v) ∷ s) u =
      (ground (arith, text_beq_iff k k), Within-cons k v s s u.0 (Within-self s u.1))

  all_known-keys :
      (fields s : Section F)
      → ((k : Text) → has_key k s ≡ true → has_key k fields ≡ true)
      → all_known fields s ≡ true
  all_known-keys fields [] h = refl
  all_known-keys fields ((k, v) ∷ s) h =
      ground (arith, h k, text_beq_iff k k, all_known-keys fields s (λ j p. h j (ground arith)))

  has_key-keys :
      (fields s : Section F) → keys fields ≡ keys s → (k : Text) → has_key k s ≡ has_key k fields
  has_key-keys [] [] e k = refl
  has_key-keys [] (x ∷ s) e k = cc
  has_key-keys (x ∷ fields) [] e k = cc
  has_key-keys ((j, d) ∷ fields) ((i, v) ∷ s) e k =
      let t : keys fields ≡ keys s = cc in ground (arith, has_key-keys fields s t k)

  -- A section with the fields of its class, each once.
  pub record IsInstance (fields s : Section F) : Type 0 where
    pub same : keys fields ≡ keys s
    pub once : NodupKeys s

  construct-IsInstance :
      (fields s : Section F) → IsInstance fields s → construct fields (mapping s) ≡ ok s
  unfolding construct
  construct-IsInstance fields s h =
      rw (all_known-keys fields s (λ k p. sym (has_key-keys fields s h.same k) ∙ p))
        (ap ok (fill-Within fields s s h.same (Within-self s h.once)))

  -- Every section has the fields of its class, each once.
  pub record IsConfig (two : F) (c : Config F) : Type 0 where
    pub allocator : IsInstance (allocator_config two) c.allocator
    pub backpressure : IsInstance (backpressure_config two) c.backpressure
    pub dispatch : IsInstance (dispatch_config two) c.dispatch
    pub kernel_cache : IsInstance (kernel_cache_config two) c.kernel_cache
    pub profiling : IsInstance (profiling_config two) c.profiling

  -- A configuration whose sections have the fields of their classes, each once, comes back from its
  -- dictionary, whatever values its fields hold.
  pub from_dict-to_dict :
      (two : F) (c : Config F) → IsConfig two c → from_dict two (to_dict c) ≡ ok c
  unfolding from_dict to_dict
  from_dict-to_dict two c h = rw (construct-IsInstance _ c.allocator h.allocator) (
      rw (construct-IsInstance _ c.backpressure h.backpressure) (
        rw (construct-IsInstance _ c.dispatch h.dispatch) (
          rw (construct-IsInstance _ c.kernel_cache h.kernel_cache)
            (rw (construct-IsInstance _ c.profiling h.profiling)))))
