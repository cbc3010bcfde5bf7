-- ===== src/Config/Assign.antt =====
-- config.py: what one variable of the environment assigns, and that the last one wins.
use metal_native.Base.{
  ◌≡◌, ◌∙◌, inl, inr, refl, some, List, [], ◌∷◌, ◌++◌, ap, beq_refl, if◌then◌else◌,
}
use metal_native.Base.Dict.{lookup, insert, lookup-insert}
use metal_native.Base.Exec.{ok, Result-cases}
use metal_native.Base.Text.{
  Text, text_eq, codes, lower, Lacks, split_once, split_once-append, strip_prefix-append,
}
use metal_native.Config.{Section, Value}
use metal_native.Config.Defaults.{default_config}
use metal_native.Config.Env.{
  Python, Conf, SectionName, allocator, backpressure, dispatch, kernel_cache, profiling,
  section_named, get_section, put_section, convert, assigned, set_attr, set_at, in_section,
  parse_rest, apply_parsed, apply_var, apply_env, from_env, and_then,
}

module _ (P : Python) where
  -- A key that names field `attr` of section `n`, in letters of any case.
  pub record Names (n : SectionName) (attr rest : Text) : Type 0 where
    pub section : Text
    pub lowered : lower rest ≡ section ++ b'_' ∷ attr
    pub lacks : Lacks b'_' section
    pub named : section_named section ≡ some n

  parse_rest-Names :
      (n : SectionName) (attr rest : Text) (h : Names n attr rest)
      → parse_rest P (some rest) ≡ some (h.section, attr)
  parse_rest-Names n attr rest h =
      ap (split_once b'_') h.lowered ∙ split_once-append b'_' h.section attr h.lacks

  apply_var-named :
      (n : SectionName) (attr rest v : Text) (c : Conf P) (current : Value P.Float)
      → Names n attr rest
      → lookup attr (get_section P n c) ≡ some current
      → apply_var P (codes "METAL_NATIVE_" ++ rest) v c ≡ assigned P n attr c (convert P current v)
  unfolding apply_var set_attr
  apply_var-named n attr rest v c current h e =
      ap (λ o. apply_parsed P (parse_rest P o) v c)
        (strip_prefix-append (codes "METAL_NATIVE_") rest)
      ∙ ap (λ o. apply_parsed P o v c) (parse_rest-Names n attr rest h)
      ∙ ap (λ o. in_section P o attr v c) h.named
      ∙ ap (set_at P n attr v c) e

  apply_env-append :
      (env : List (Text × Text)) (key v : Text) (c : Conf P)
      → apply_env P (env ++ (key, v) ∷ []) c ≡ and_then P (apply_env P env c) (apply_var P key v)
  unfolding apply_env
  apply_env-append [] key v c = elim (Result-cases (apply_var P key v c)) [
    | inl (a, e) ↦ rw e
    | inr (x, e) ↦ rw e
  ]
  apply_env-append ((k, u) ∷ env) key v c = elim (Result-cases (apply_var P k u c)) [
    | inl (a, e) ↦ rw e (apply_env-append env key v a)
    | inr (x, e) ↦ rw e
  ]

  get_section-put_section :
      (n : SectionName) (s : Section P.Float) (c : Conf P)
      → get_section P n (put_section P n s c) ≡ s
  get_section-put_section allocator s c = refl
  get_section-put_section backpressure s c = refl
  get_section-put_section dispatch s c = refl
  get_section-put_section kernel_cache s c = refl
  get_section-put_section profiling s c = refl

  -- Where the environment gives a configuration, and one more variable at its end names a field that
  -- the configuration has and holds a text that the type of the field's value accepts, the field
  -- has the converted text, whatever the variables before assigned to it.
  pub from_env-last :
      (env : List (Text × Text)) (n : SectionName) (attr rest v : Text) (c : Conf P)
      (current w : Value P.Float)
      → from_env P env ≡ ok c
      → Names n attr rest
      → lookup attr (get_section P n c) ≡ some current
      → convert P current v ≡ ok w
      → (d : Conf P) × (from_env P (env ++ (codes "METAL_NATIVE_" ++ rest, v) ∷ []) ≡ ok d)
        × (lookup attr (get_section P n d) ≡ some w)
  unfolding from_env
  from_env-last env n attr rest v c current w e h l k = (
    put_section P n (insert attr w (get_section P n c)) c,
    apply_env-append env (codes "METAL_NATIVE_" ++ rest) v (default_config P.two)
        ∙ ap (λ r. and_then P r (apply_var P (codes "METAL_NATIVE_" ++ rest) v)) e
        ∙ apply_var-named n attr rest v c current h l
        ∙ ap (assigned P n attr c) k,
    ap (lookup attr) (get_section-put_section n (insert attr w (get_section P n c)) c)
        ∙ lookup-insert attr attr w (get_section P n c)
        ∙ ap (λ b. if b then some w else lookup attr (get_section P n c)) (beq_refl attr),
  )
