-- ===== src/Generation/Stop.antt =====
-- examples/llm_generation.py: where the generation stops.
use metal_native.Base.{
  ℕ, zero, suc, ◌≡◌, ◌≢◌, ◌⊎◌, ◌∙◌, sym, if◌then◌else◌, inl, inr, ap, refl, Bool, true, false, List,
  [], ◌∷◌, ◌++◌, arith, append-nil, append_assoc, ◌==◌, nat_eq,
}
use mathlib.Core.Path.{subst}
use metal_native.Base.Exec.{ok, Exec, pure, then_run}
use metal_native.Generation.{Sampler, Model, next_token, append_token, generate, generate_text}

-- New tokens that end where the code stops: at the first EOS, which is 0, or at the limit.
abbrev pub Stopped : ℕ → List ℕ → Type 0
Stopped zero ts = ts ≡ []
Stopped (suc n) [] = ⊥
Stopped (suc n) (t ∷ ts) = ((t ≡ 0) × (ts ≡ [])) ⊎ ((t ≢ 0) × Stopped n ts)

module _ (S : Sampler) (M : Model S) (temperature : S.Float) (top_k : ℕ) where
  -- A return of the prompt with new tokens that stop.
  abbrev Extends : ℕ → List ℕ → Exec S.World (List ℕ) → S.World → Type 0
  Extends n ids m w = (ts : List ℕ) × ((m w).0 ≡ ok (ids ++ ts)) × Stopped n ts

  grown :
      (n : ℕ) (ids : List ℕ) (t : ℕ) (v : S.World) (b : Bool)
      → (t == 0) ≡ b
      → Extends n (ids ++ t ∷ []) (generate S M temperature top_k n (ids ++ t ∷ [])) v
      → Extends
          (suc n)
          ids
          (if b then pure (ids ++ t ∷ []) else generate S M temperature top_k n (ids ++ t ∷ []))
          v
  grown n ids t v true e (ts, k, s) = (t ∷ [], refl, inl (ground arith, refl))
  grown n ids t v false e (ts, k, s) =
      (t ∷ ts, k ∙ ap ok (append_assoc ids (t ∷ []) ts), inr (λ z. ground arith, s))

  module _ (Ready : List ℕ → S.World → Type 0) where
    -- From tokens and a state that are ready, as at least one token and only those of the vocabulary,
    -- the round gets a token, and with it the loop is ready again.
    abbrev pub Samples : Type 0
    Samples =
        (ids : List ℕ) (w : S.World)
        → Ready ids w
        → (t : ℕ) × (v : S.World) × (next_token S M temperature top_k ids w ≡ (ok t, v))
          × Ready (ids ++ t ∷ []) v

    generate-Extends :
        (n : ℕ) (ids : List ℕ) (w : S.World)
        → Samples
        → Ready ids w
        → Extends n ids (generate S M temperature top_k n ids) w
    unfolding generate
    generate-Extends zero ids w h q = ([], ap ok (sym (append-nil ids)), refl)
    generate-Extends (suc n) ids w h q =
        let (t, v, e, q') = h ids w q in
        let rest : ℕ → Exec S.World (List ℕ) =
          append_token S M temperature top_k (generate S M temperature top_k n) ids in
        subst (λ r. (ts : List ℕ) × ((then_run rest r).0 ≡ ok (ids ++ ts)) × Stopped (suc n) ts)
          (sym e) (grown n ids t v (t == 0) refl (generate-Extends n (ids ++ t ∷ []) v h q'))

    -- Where the loop starts from a prompt and a state that are ready, and every round from such ones
    -- gets a token with which it is ready again, as the model and the sampling return for tokens of
    -- the vocabulary, `generate_text` returns the prompt with new tokens, which stop at the first 0,
    -- the end of the text, included, and else at the limit: there are fewer of them only where the
    -- last is 0, and no other is 0.
    pub generate_text-Stopped :
        (prompt_ids : List ℕ) (max_new_tokens : ℕ) (w : S.World)
        → Samples
        → Ready prompt_ids w
        → (ts : List ℕ) × ((generate_text S M temperature top_k prompt_ids max_new_tokens w).0
            ≡ ok (prompt_ids ++ ts))
          × Stopped max_new_tokens ts
    unfolding generate_text
    generate_text-Stopped prompt_ids max_new_tokens w h q =
        generate-Extends max_new_tokens prompt_ids w h q
