-- ===== src/Generation/Window.antt =====
-- examples/llm_generation.py: the model sees at most its maximal number of tokens.
use metal_native.Base.{
  ℕ, zero, suc, ◌-◌, ◌≡◌, ◌≤◌, ◌<◌, if◌then◌else◌, ap, refl, Bool, true, false, List, [], ◌∷◌, ◌++◌,
  length, arith, ◌==◌, nat_eq, length-append,
}
use metal_native.Base.Exec.{Exec, pure, ◌>>=◌, >>=_agree, then_run}
use metal_native.Generation.{
  Sampler, Model, drop, last_of, sample_token, next_token, append_token, generate, generate_text,
}

length-drop : {A : Type 0} (n : ℕ) (xs : List A) → length (drop n xs) ≡ length xs - n
length-drop zero xs = omega arith
length-drop (suc n) [] = omega arith
length-drop (suc n) (x ∷ xs) = omega (arith, length-drop n xs)

pub length-last_of :
    {A : Type 0} (m : ℕ) (xs : List A)
    → 0 < m
    → 0 < length xs
    → (0 < length (last_of m xs)) × (length (last_of m xs) ≤ m)
unfolding last_of
length-last_of zero xs p q = absurd (omega (arith, p))
length-last_of (suc m) xs p q =
    let e = length-drop (length xs - suc m) xs in (omega (arith, e), omega (arith, e))

module _ (S : Sampler) (M : Model S) (g : List ℕ → Exec S.World M.Logits) where
  -- The model with another forward pass.
  abbrev pub other : Model S
  other = record M { forward = g }

  -- The forward passes agree on lists of 1 to `max_seq_len` tokens.
  abbrev pub AgreeWithin : Type 0
  AgreeWithin =
      (xs : List ℕ) (w : S.World)
      → 0 < length xs
      → length xs ≤ M.max_seq_len
      → M.forward xs w ≡ g xs w

  module _ (temperature : S.Float) (top_k : ℕ) where
    next_token_agree :
        (ids : List ℕ) (w : S.World)
        → AgreeWithin
        → 0 < M.max_seq_len
        → 0 < length ids
        → next_token S M temperature top_k ids w ≡ next_token S other temperature top_k ids w
    unfolding next_token
    next_token_agree ids w h p q =
        let l = length-last_of M.max_seq_len ids p q in
        let rest : M.Logits → Exec S.World ℕ =
          λ logits. M.last_position logits >>= λ x. sample_token S x temperature top_k in
        ap (then_run rest) (h (last_of M.max_seq_len ids) w l.0 l.1)

    append_agree :
        (f k : List ℕ → Exec S.World (List ℕ)) (ids : List ℕ) (t : ℕ) (b : Bool) (w : S.World)
        → f (ids ++ t ∷ []) w ≡ k (ids ++ t ∷ []) w
        → (if b then pure (ids ++ t ∷ []) else f (ids ++ t ∷ [])) w
          ≡ (if b then pure (ids ++ t ∷ []) else k (ids ++ t ∷ [])) w
    append_agree f k ids t true w e = refl
    append_agree f k ids t false w e = e

    generate_agree :
        (n : ℕ) (ids : List ℕ) (w : S.World)
        → AgreeWithin
        → 0 < M.max_seq_len
        → 0 < length ids
        → generate S M temperature top_k n ids w ≡ generate S other temperature top_k n ids w
    unfolding generate
    generate_agree zero ids w h p q = refl
    generate_agree (suc n) ids w h p q =
        >>=_agree (next_token S M temperature top_k ids) (next_token S other temperature top_k ids)
          (append_token S M temperature top_k (generate S M temperature top_k n) ids)
          (append_token S other temperature top_k (generate S other temperature top_k n) ids) w
          (next_token_agree ids w h p q)
          (λ t e.
            append_agree (generate S M temperature top_k n) (generate S other temperature top_k n)
              ids t (t == 0) (next_token S M temperature top_k ids w).1
              (generate_agree n (ids ++ t ∷ []) (next_token S M temperature top_k ids w).1 h p
                (omega (arith, length-append ids (t ∷ [])))))

    -- For a prompt of at least one token and a model of at least one position, the text depends only
    -- on what the forward pass does with 1 to `max_seq_len` tokens: two passes that agree there give
    -- the same result, exception and state, however long the text becomes.
    pub generate_text-AgreeWithin :
        (prompt_ids : List ℕ) (max_new_tokens : ℕ) (w : S.World)
        → AgreeWithin
        → 0 < M.max_seq_len
        → 0 < length prompt_ids
        → generate_text S M temperature top_k prompt_ids max_new_tokens w
          ≡ generate_text S other temperature top_k prompt_ids max_new_tokens w
    unfolding generate_text
    generate_text-AgreeWithin prompt_ids max_new_tokens w h p q =
        generate_agree max_new_tokens prompt_ids w h p q
