-- ===== src/Generation/Gpt.antt =====
-- examples/llm_generation.py: `MiniGPT`, and how `generate_text` sees it.
use metal_native.Base.{ℕ, zero, suc, ◌≡◌, ◌≢◌, ◌∙◌, sym, ap, some, List, [], ◌∷◌, length}
use metal_native.Base.Exec.{
  Exn, Result, Exec, ok, err, ok_injective, pure, raise, value_error, ◌>>=◌, >>=_cases,
}
use metal_native.Generation.{Sampler, Model}
use metal_native.Generation.Transformer.{Ops, Block, block_init, block_forward, layer_norm}

err-not_ok : {A : Type 0} (x : Exn) (a : A) → err x ≢ ok a
err-not_ok x a h = cc

module _ (O : Ops) where
  open O use {Array, World, literal, scale, add, matmul}

  pub record MiniGpt : Type 0 where
    pub vocab_size : ℕ
    pub d_model : ℕ
    pub n_heads : ℕ
    pub d_ff : ℕ
    pub n_layers : ℕ
    pub max_seq_len : ℕ
    pub token_embedding : Array
    pub position_embedding : Array
    pub blocks : List (Block O)
    pub lm_head : Array
    pub ln_final_gamma : Array
    pub ln_final_beta : Array

  -- `np.random.randn(...).astype(np.float32) * 0.02`
  abbrev pub embedding : ℕ → ℕ → Exec World Array
  embedding rows cols = O.randn rows cols >>= λ a. pure (scale a (literal "0.02"))

  unfoldable pub make_blocks : ℕ → ℕ → ℕ → ℕ → Exec World (List (Block O))
  unfolding block_init
  make_blocks zero d_model n_heads d_ff = pure []
  make_blocks (suc n) d_model n_heads d_ff = do
    b ← block_init O d_model n_heads d_ff
    bs ← make_blocks n d_model n_heads d_ff
    pure (b ∷ bs)

  -- `MiniGPT(vocab_size, d_model, n_heads, d_ff, n_layers, max_seq_len)`
  unfoldable pub mini_gpt_init : ℕ → ℕ → ℕ → ℕ → ℕ → ℕ → Exec World MiniGpt
  unfolding make_blocks
  mini_gpt_init vocab_size d_model n_heads d_ff n_layers max_seq_len = do
    token_embedding ← embedding vocab_size d_model
    position_embedding ← embedding max_seq_len d_model
    blocks ← make_blocks n_layers d_model n_heads d_ff
    lm_head ← embedding d_model vocab_size
    pure (record {
      vocab_size = vocab_size;
      d_model = d_model;
      n_heads = n_heads;
      d_ff = d_ff;
      n_layers = n_layers;
      max_seq_len = max_seq_len;
      token_embedding = token_embedding;
      position_embedding = position_embedding;
      blocks = blocks;
      lm_head = lm_head;
      ln_final_gamma = O.ones d_model;
      ln_final_beta = O.zeros d_model;
    })

  unfoldable pub get_causal_mask : ℕ → Array
  get_causal_mask seq_len = O.lead (O.lead (O.triu (O.full seq_len (literal "-1e9")) 1))

  unfoldable pub through_blocks : List (Block O) → Array → Array → Exec World Array
  unfolding block_forward
  through_blocks [] mask x = pure x
  through_blocks (b ∷ bs) mask x = block_forward O b x (some mask) >>= through_blocks bs mask

  abbrev pub forward_with : MiniGpt → Array → List ℕ → Exec World Array
  unfolding through_blocks layer_norm get_causal_mask
  forward_with m input_ids (batch_size ∷ (seq_len ∷ [])) = do
    token_emb ← O.take_rows m.token_embedding input_ids
    let x = add token_emb (O.lead (O.first_rows m.position_embedding seq_len))
    y ← through_blocks m.blocks (get_causal_mask seq_len) x
    pure (matmul (layer_norm O y m.ln_final_gamma m.ln_final_beta) m.lm_head)
  forward_with m input_ids dims = raise value_error

  -- `forward`; its last normalization is the formula of `layer_norm`.
  unfoldable pub forward : MiniGpt → Array → Exec World Array
  unfolding forward_with
  forward m input_ids = forward_with m input_ids (O.shape input_ids)

  -- Blocks that are made are as many as asked for.
  make_blocks-length :
      (n d_model n_heads d_ff : ℕ) (w : World) (bs : List (Block O))
      → (make_blocks n d_model n_heads d_ff w).0 ≡ ok bs
      → length bs ≡ n
  unfolding make_blocks
  make_blocks-length zero d_model n_heads d_ff w bs h = sym (ap length (ok_injective h))
  make_blocks-length (suc n) d_model n_heads d_ff w bs h =
      let rest : Block O → Exec World (List (Block O)) =
        λ b. make_blocks n d_model n_heads d_ff >>= λ cs. pure (b ∷ cs) in
      let Good : Result (List (Block O)) × World → Type 0 = λ r. r.0 ≡ ok bs → length bs ≡ suc n in
      >>=_cases rest Good (block_init O d_model n_heads d_ff) w
        (λ b e.
          let v = (block_init O d_model n_heads d_ff w).1 in
          >>=_cases (λ cs. pure (b ∷ cs)) Good (make_blocks n d_model n_heads d_ff) v
            (λ cs k g.
              sym (ap length (ok_injective g))
              ∙ ap suc (make_blocks-length n d_model n_heads d_ff v cs k))
            (λ x k g. absurd (err-not_ok x bs g)))
        (λ x e g. absurd (err-not_ok x bs g)) h

  -- What else of NumPy the loop calls on the arrays of the model.
  pub record Calls : Type 0 where
    pub divide : Array → O.Float → Exec World Array
    pub kth_largest : Array → ℕ → Exec World O.Float
    pub remove_below : Array → O.Float → Exec World Array
    pub max : Array → Exec World O.Float
    pub subtract : Array → O.Float → Exec World Array
    pub sum : Array → Exec World O.Float
    pub choice : Array → Exec World ℕ
    pub int_array : List ℕ → Exec World Array
    pub last_position : Array → Exec World Array

  module _ (C : Calls) where
    abbrev pub sampler_of : Sampler
    sampler_of = record {
      World = World;
      Float = O.Float;
      Array = Array;
      divide = C.divide;
      kth_largest = C.kth_largest;
      remove_below = C.remove_below;
      max = C.max;
      subtract = C.subtract;
      exp = λ a. pure (O.exp a);
      sum = C.sum;
      choice = C.choice;
    }

    -- The model as the loop sees it.
    unfoldable pub model_of : MiniGpt → Model sampler_of
    unfolding forward
    model_of m = record {
      Logits = Array;
      max_seq_len = m.max_seq_len;
      forward = λ ids. C.int_array ids >>= forward m;
      last_position = C.last_position;
    }
