-- ===== src/Generation.antt =====
-- examples/llm_generation.py: the sampling of a token, and the loop that generates text. NumPy and the
-- model's forward pass are a parameter.
pub mod Text
pub mod Stop
pub mod Transformer
pub mod Gpt
pub mod Window
mod Tests
use metal_native.Base.{
  ℕ, zero, suc, ◌-◌, Bool, true, false, not, List, [], ◌∷◌, ◌++◌, length, if◌then◌else◌, ◌==◌,
  nat_eq, ltb,
}
use metal_native.Base.Exec.{Exec, pure, ◌>>=◌}

-- What the sampling calls of NumPy; a call may raise, as `np.partition` does where `top_k` is larger
-- than the vocabulary.
pub record Sampler : Type 1 where
  pub World : Type 0
  pub Float : Type 0
  pub Array : Type 0
  pub divide : Array → Float → Exec World Array
  -- `np.partition(logits, -top_k)[-top_k]`
  pub kth_largest : Array → ℕ → Exec World Float
  -- `logits[logits < bound] = -float('inf')`
  pub remove_below : Array → Float → Exec World Array
  pub max : Array → Exec World Float
  pub subtract : Array → Float → Exec World Array
  pub exp : Array → Exec World Array
  pub sum : Array → Exec World Float
  -- `np.random.choice(len(probs), p=probs)`
  pub choice : Array → Exec World ℕ

-- A model, by the attribute and the method that `generate_text` uses.
pub record Model (S : Sampler) : Type 1 where
  pub Logits : Type 0
  pub max_seq_len : ℕ
  -- `model.forward(np.array([ids], dtype=np.int64))`
  pub forward : List ℕ → Exec S.World Logits
  -- `logits[0, -1, :]`
  pub last_position : Logits → Exec S.World S.Array

module _ {A : Type 0} where
  abbrev pub drop : ℕ → List A → List A
  drop zero xs = xs
  drop (suc n) [] = []
  drop (suc n) (x ∷ xs) = drop n xs

  -- `xs[-m:]`, which is the whole list for m = 0
  unfoldable pub last_of : ℕ → List A → List A
  last_of zero xs = xs
  last_of (suc m) xs = drop (length xs - suc m) xs

module _ (S : Sampler) where
  -- Top-k filtering, if it is asked for.
  unfoldable pub filtered : S.Array → ℕ → Exec S.World S.Array
  filtered logits top_k =
      if ltb 0 top_k then S.kth_largest logits top_k >>= S.remove_below logits else pure logits

  unfoldable pub softmax : S.Array → Exec S.World S.Array
  softmax logits = do
    largest ← S.max logits
    shifted ← S.subtract logits largest
    probs ← S.exp shifted
    total ← S.sum probs
    S.divide probs total

  unfoldable pub sample_token : S.Array → S.Float → ℕ → Exec S.World ℕ
  unfolding filtered softmax
  sample_token logits temperature top_k = do
    scaled ← S.divide logits temperature
    kept ← filtered scaled top_k
    probs ← softmax kept
    S.choice probs

  module _ (M : Model S) (temperature : S.Float) (top_k : ℕ) where
    -- One round of the loop up to the token.
    unfoldable pub next_token : List ℕ → Exec S.World ℕ
    unfolding last_of sample_token
    next_token ids = do
      logits ← M.forward (last_of M.max_seq_len ids)
      next_token_logits ← M.last_position logits
      sample_token next_token_logits temperature top_k

    -- `generated_ids.append(next_token)`, and the end of the loop at EOS, which is 0
    abbrev pub append_token : (List ℕ → Exec S.World (List ℕ)) → List ℕ → ℕ → Exec S.World (List ℕ)
    append_token rest ids token =
        let ids' = ids ++ token ∷ [] in if token == 0 then pure ids' else rest ids'

    unfoldable pub generate : ℕ → List ℕ → Exec S.World (List ℕ)
    unfolding next_token
    generate zero ids = pure ids
    generate (suc n) ids = next_token ids >>= append_token (λ xs. generate n xs) ids

    -- The prompt's list is copied, so it is not changed.
    unfoldable pub generate_text : List ℕ → ℕ → Exec S.World (List ℕ)
    unfolding generate
    generate_text prompt_ids max_new_tokens = generate max_new_tokens prompt_ids
