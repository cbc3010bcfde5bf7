-- ===== src/Config/Kinds.antt =====
-- config.py: `from_env` keeps the fields of every section and the kinds of their values.
use metal_native.Base.{
  ◌≡◌, ◌≢◌, ◌∙◌, inl, inr, refl, sym, Bool-cases, Option, Option-cases, none, some, List, [], ◌∷◌,
  arith, ◌==◌, ap, All,
}
use metal_native.Base.Dict.{lookup, insert}
use metal_native.Base.Exec.{Result, ok, err, ok_injective, Result-cases}
use metal_native.Base.Text.{Text, text_eq}
use metal_native.Config.{Section, Value, int, float, bool, str, none_value, ints}
use metal_native.Config.Defaults.{default_config}
use metal_native.Config.KernelCache.{parse_key-kernel_cache}
use metal_native.Config.Env.{
  Python, Conf, SectionName, allocator, backpressure, dispatch, kernel_cache, profiling,
  section_named, get_section, put_section, convert, set_at, set_attr, parse_key, apply_parsed,
  apply_var, apply_env, from_env, and_then, untouched, assigned,
}

pub data Kind : Type 0 where
  an_int a_float a_bool a_str a_none some_ints : Kind

module _ {F : Type 0} where
  abbrev pub kind : Value F → Kind
  kind (int n) = an_int
  kind (float x) = a_float
  kind (bool b) = a_bool
  kind (str s) = a_str
  kind none_value = a_none
  kind (ints ns) = some_ints

  -- The field names with the kinds of the values.
  abbrev pub shape : Section F → List (Text × Kind)
  shape [] = []
  shape ((k, v) ∷ s) = (k, kind v) ∷ shape s

  shape-insert :
      (k : Text) (v w : Value F) (s : Section F)
      → lookup k s ≡ some v
      → kind w ≡ kind v
      → shape (insert k w s) ≡ shape s
  shape-insert k v w [] h e = cc
  shape-insert k v w ((j, u) ∷ s) h e = ground (arith, shape-insert k v w s)

-- The kinds that `from_env` converts to.
abbrev IsPlain : Kind → Type 0
IsPlain a_none = ⊥
IsPlain some_ints = ⊥
IsPlain _ = Unit

abbrev PlainEntry : Text × Kind → Type 0
PlainEntry (k, t) = IsPlain t

lookup-IsPlain :
    {F : Type 0} (k : Text) (v : Value F) (s : Section F)
    → All PlainEntry (shape s)
    → lookup k s ≡ some v
    → IsPlain (kind v)
lookup-IsPlain k v [] p h = cc
lookup-IsPlain k v ((j, u) ∷ s) p h = elim (Bool-cases (j == k)) [
  | inl same ↦ let e : u ≡ v = ground arith in rw (← e) p.0
  | inr differ ↦ lookup-IsPlain k v s p.1 (ground arith)
]

module _ (P : Python) where
  kind-convert :
      (v w : Value P.Float) (t : Text) → IsPlain (kind v) → convert P v t ≡ ok w → kind w ≡ kind v
  unfolding convert
  kind-convert (int n) w t p h = ground arith
  kind-convert (float x) w t p h = ground arith
  kind-convert (bool b) w t p h = ground arith
  kind-convert (str s) w t p h = ground arith
  kind-convert none_value w t p h = absurd p
  kind-convert (ints ns) w t p h = absurd p

  put_section-get_section :
      (n : SectionName) (c : Conf P) → put_section P n (get_section P n c) c ≡ c
  put_section-get_section allocator c = refl
  put_section-get_section backpressure c = refl
  put_section-get_section dispatch c = refl
  put_section-get_section kernel_cache c = refl
  put_section-get_section profiling c = refl

  -- The same configuration but for section `n`, which keeps its shape.
  abbrev Reshaped : SectionName → Conf P → Conf P → Type 0
  Reshaped n c c' =
      (s : Section P.Float) × (c' ≡ put_section P n s c) × (shape s ≡ shape (get_section P n c))

  untouched-eq : (c c' : Conf P) (o : Option (Result (Unit {0}))) → untouched P c o ≡ ok c' → c' ≡ c
  untouched-eq c c' none h = ground arith
  untouched-eq c c' (some (ok u)) h = ground arith
  untouched-eq c c' (some (err e)) h = cc

  assigned-Reshaped :
      (n : SectionName) (attr : Text) (c c' : Conf P) (v : Value P.Float)
      (r : Result (Value P.Float))
      → lookup attr (get_section P n c) ≡ some v
      → ((w : Value P.Float) → r ≡ ok w → kind w ≡ kind v)
      → assigned P n attr c r ≡ ok c'
      → Reshaped n c c'
  assigned-Reshaped n attr c c' v (err e) l k h = cc
  assigned-Reshaped n attr c c' v (ok w) l k h = (
    insert attr w (get_section P n c),
    ground arith,
    shape-insert attr v w (get_section P n c) l (k w refl),
  )

  set_at-Reshaped :
      (n : SectionName) (attr v : Text) (c c' : Conf P) (o : Option (Value P.Float))
      → lookup attr (get_section P n c) ≡ o
      → All PlainEntry (shape (get_section P n c))
      → set_at P n attr v c o ≡ ok c'
      → Reshaped n c c'
  set_at-Reshaped n attr v c c' none e p h = (
    get_section P n c,
    untouched-eq c c' (P.special attr v) h ∙ sym (put_section-get_section n c),
    refl,
  )
  set_at-Reshaped n attr v c c' (some u) e p h =
      assigned-Reshaped n attr c c' u (convert P u v) e
        (λ w q. kind-convert u w v (lookup-IsPlain attr u (get_section P n c) p e) q) h

  -- Every section has the fields and the kinds of a new configuration, and `kernel_cache` is that of
  -- a new configuration.
  pub record LikeNew (c : Conf P) : Type 0 where
    pub allocator : shape c.allocator ≡ shape (default_config P.two).allocator
    pub backpressure : shape c.backpressure ≡ shape (default_config P.two).backpressure
    pub dispatch : shape c.dispatch ≡ shape (default_config P.two).dispatch
    pub profiling : shape c.profiling ≡ shape (default_config P.two).profiling
    pub kernel_cache : c.kernel_cache ≡ (default_config P.two).kernel_cache

  -- The sections but `kernel_cache` hold plain kinds.
  default_plain :
      All PlainEntry (shape (default_config P.two).allocator)
      × All PlainEntry (shape (default_config P.two).backpressure)
      × All PlainEntry (shape (default_config P.two).dispatch)
      × All PlainEntry (shape (default_config P.two).profiling)
  unfolding default_config
  default_plain = (
    (tt, (tt, (tt, (tt, (tt, (tt, (tt, tt))))))),
    (tt, (tt, (tt, (tt, tt)))),
    (tt, (tt, (tt, (tt, (tt, tt))))),
    (tt, (tt, (tt, (tt, (tt, tt))))),
  )

  set_attr-LikeNew :
      (n : SectionName) (attr v : Text) (c c' : Conf P)
      → n ≢ kernel_cache
      → LikeNew c
      → set_attr P n attr v c ≡ ok c'
      → LikeNew c'
  unfolding set_attr
  set_attr-LikeNew kernel_cache attr v c c' ne l h = absurd (ne refl)
  set_attr-LikeNew allocator attr v c c' ne l h =
      let (s, e, q) =
        set_at-Reshaped allocator attr v c c' _ refl (rw l.allocator default_plain.0) h in
      rw e (record {
        allocator = q ∙ l.allocator;
        backpressure = l.backpressure;
        dispatch = l.dispatch;
        profiling = l.profiling;
        kernel_cache = l.kernel_cache;
      })
  set_attr-LikeNew backpressure attr v c c' ne l h =
      let (s, e, q) =
        set_at-Reshaped backpressure attr v c c' _ refl (rw l.backpressure default_plain.1) h in
      rw e (record {
        allocator = l.allocator;
        backpressure = q ∙ l.backpressure;
        dispatch = l.dispatch;
        profiling = l.profiling;
        kernel_cache = l.kernel_cache;
      })
  set_attr-LikeNew dispatch attr v c c' ne l h =
      let (s, e, q) =
        set_at-Reshaped dispatch attr v c c' _ refl (rw l.dispatch default_plain.2) h in
      rw e (record {
        allocator = l.allocator;
        backpressure = l.backpressure;
        dispatch = q ∙ l.dispatch;
        profiling = l.profiling;
        kernel_cache = l.kernel_cache;
      })
  set_attr-LikeNew profiling attr v c c' ne l h =
      let (s, e, q) =
        set_at-Reshaped profiling attr v c c' _ refl (rw l.profiling default_plain.3) h in
      rw e (record {
        allocator = l.allocator;
        backpressure = l.backpressure;
        dispatch = l.dispatch;
        profiling = q ∙ l.profiling;
        kernel_cache = l.kernel_cache;
      })

  apply_parsed-LikeNew :
      (o : Option (Text × Text)) (v : Text) (c c' : Conf P)
      → ((section attr : Text)
          → o ≡ some (section, attr)
          → section_named section ≢ some kernel_cache)
      → LikeNew c
      → apply_parsed P o v c ≡ ok c'
      → LikeNew c'
  apply_parsed-LikeNew none v c c' ne l h = let e : c' ≡ c = ground arith in rw e l
  apply_parsed-LikeNew (some (section, attr)) v c c' ne l h =
      elim (Option-cases (section_named section)) [
        | inl unknown ↦ let e : c' ≡ c = sym (ok_injective (rw unknown at h)) in rw e l
        | inr (n, known) ↦
            set_attr-LikeNew n attr v c c' (λ q. ne section attr refl (known ∙ ap some q)) l
              (rw known at h)
      ]

  apply_env-LikeNew :
      (env : List (Text × Text)) (c c' : Conf P)
      → LikeNew c
      → apply_env P env c ≡ ok c'
      → LikeNew c'
  unfolding apply_env apply_var
  apply_env-LikeNew [] c c' l h = let e : c' ≡ c = ground arith in rw e l
  apply_env-LikeNew ((key, v) ∷ env) c c' l h =
      elim (Result-cases (apply_parsed P (parse_key P key) v c)) [
        | inl (d, e) ↦
            apply_env-LikeNew env d c'
              (apply_parsed-LikeNew (parse_key P key) v c d (parse_key-kernel_cache P key) l e)
              (rw (e, and_then) at h)
        | inr (x, e) ↦ cc (rw (e, and_then) at h)
      ]

  -- What `from_env` returns, in any environment, has the fields of a new configuration in every
  -- section, with values of the same kinds, and its section `kernel_cache` is that of a new
  -- configuration.
  pub from_env-LikeNew : (env : List (Text × Text)) (c : Conf P) → from_env P env ≡ ok c → LikeNew c
  unfolding from_env
  from_env-LikeNew env c h =
      apply_env-LikeNew env (default_config P.two) c
        (record {
          allocator = refl;
          backpressure = refl;
          dispatch = refl;
          profiling = refl;
          kernel_cache = refl;
        })
        h
