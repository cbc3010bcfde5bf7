-- ===== src/Generation/Transformer.antt =====
-- examples/llm_generation.py: the small transformer. NumPy is a parameter; its arithmetic is taken not
-- to raise, since the shapes of the model
-- fit and its sizes are positive; the lookup of tokens and the reshapes may raise.
use metal_native.Base.{
  ℕ, ◌/◌, String, Option, none, some, List, [], ◌∷◌, if◌then◌else◌, ◌==◌, nat_eq,
}
use metal_native.Base.Exec.{Exec, pure, raise, value_error, zero_division, ◌>>=◌}

pub record Ops : Type 1 where
  pub World : Type 0
  pub Float : Type 0
  pub Array : Type 0
  -- A float by its text, and a number as a float.
  pub literal : String → Float
  pub of_nat : ℕ → Float
  pub sqrt_f : Float → Float
  pub div_f : Float → Float → Float
  pub pi : Float
  -- `np.random.randn(...).astype(np.float32)`
  pub randn : ℕ → ℕ → Exec World Array
  pub ones : ℕ → Array
  pub zeros : ℕ → Array
  pub full : ℕ → Float → Array
  pub triu : Array → ℕ → Array
  -- `a[None, ...]`
  pub lead : Array → Array
  pub shape : Array → List ℕ
  pub take_rows : Array → Array → Exec World Array
  pub first_rows : Array → ℕ → Array
  pub reshape : Array → List ℕ → Exec World Array
  pub transpose : Array → List ℕ → Array
  pub add : Array → Array → Array
  pub sub : Array → Array → Array
  pub mul : Array → Array → Array
  pub div : Array → Array → Array
  pub matmul : Array → Array → Array
  pub scale : Array → Float → Array
  pub add_scalar : Array → Float → Array
  pub cube : Array → Array
  pub sqrt : Array → Array
  pub exp : Array → Array
  pub tanh : Array → Array
  -- Along the last axis, with `keepdims=True`.
  pub mean : Array → Array
  pub var : Array → Array
  pub max : Array → Array
  pub sum : Array → Array

module _ (O : Ops) where
  open O use {
    Array, World, literal, of_nat, sqrt_f, div_f, add, sub, mul, div, matmul, scale, add_scalar,
  }

  pub record Block : Type 0 where
    pub d_model : ℕ
    pub n_heads : ℕ
    pub d_ff : ℕ
    pub head_dim : ℕ
    pub q_proj : Array
    pub k_proj : Array
    pub v_proj : Array
    pub o_proj : Array
    pub ff_w1 : Array
    pub ff_w2 : Array
    pub ln1_gamma : Array
    pub ln1_beta : Array
    pub ln2_gamma : Array
    pub ln2_beta : Array

  unfoldable pub init_weight : ℕ → ℕ → Exec World Array
  init_weight in_dim out_dim = do
    w ← O.randn in_dim out_dim
    pure (scale w (sqrt_f (div_f (literal "2.0") (of_nat in_dim))))

  abbrev pub block_weights : ℕ → ℕ → ℕ → Exec World Block
  unfolding init_weight
  block_weights d_model n_heads d_ff = do
    q ← init_weight d_model d_model
    k ← init_weight d_model d_model
    v ← init_weight d_model d_model
    o ← init_weight d_model d_model
    w1 ← init_weight d_model d_ff
    w2 ← init_weight d_ff d_model
    pure (record {
      d_model = d_model;
      n_heads = n_heads;
      d_ff = d_ff;
      head_dim = d_model / n_heads;
      q_proj = q;
      k_proj = k;
      v_proj = v;
      o_proj = o;
      ff_w1 = w1;
      ff_w2 = w2;
      ln1_gamma = O.ones d_model;
      ln1_beta = O.zeros d_model;
      ln2_gamma = O.ones d_model;
      ln2_beta = O.zeros d_model;
    })

  -- `SimpleTransformerBlock(d_model, n_heads, d_ff)`; no heads is a division by zero.
  unfoldable pub block_init : ℕ → ℕ → ℕ → Exec World Block
  unfolding block_weights
  block_init d_model n_heads d_ff =
      if n_heads == 0 then raise zero_division else block_weights d_model n_heads d_ff

  unfoldable pub layer_norm : Array → Array → Array → Array
  layer_norm x gamma beta =
      add (div (mul gamma (sub x (O.mean x))) (O.sqrt (add_scalar (O.var x) (literal "1e-5")))) beta

  abbrev pub masked : Array → Option Array → Array
  masked scores none = scores
  masked scores (some mask) = add scores mask

  -- The softmax over the last axis.
  abbrev pub attn_weights : Array → Array
  attn_weights scores =
      let e = O.exp (sub scores (O.max scores)) in div e (add_scalar (O.sum e) (literal "1e-8"))

  abbrev pub split_heads : Block → ℕ → ℕ → Array → Exec World Array
  split_heads b batch_size seq_len a = do
    r ← O.reshape a (batch_size ∷ seq_len ∷ b.n_heads ∷ b.head_dim ∷ [])
    pure (O.transpose r (0 ∷ 2 ∷ 1 ∷ 3 ∷ []))

  abbrev pub attend : Block → Array → Option Array → List ℕ → Exec World Array
  attend b x mask (batch_size ∷ (seq_len ∷ (d ∷ []))) = do
    q ← split_heads b batch_size seq_len (matmul x b.q_proj)
    k ← split_heads b batch_size seq_len (matmul x b.k_proj)
    v ← split_heads b batch_size seq_len (matmul x b.v_proj)
    let scores =
        scale (matmul q (O.transpose k (0 ∷ 1 ∷ 3 ∷ 2 ∷ [])))
          (div_f (literal "1.0") (sqrt_f (of_nat b.head_dim)))
    out ←
        O.reshape (O.transpose (matmul (attn_weights (masked scores mask)) v) (0 ∷ 2 ∷ 1 ∷ 3 ∷ []))
          (batch_size ∷ seq_len ∷ b.d_model ∷ [])
    pure (matmul out b.o_proj)
  attend b x mask dims = raise value_error

  unfoldable pub attention : Block → Array → Option Array → Exec World Array
  attention b x mask = attend b x mask (O.shape x)

  -- `0.5 * h * (1 + np.tanh(np.sqrt(2 / np.pi) * (h + 0.044715 * h ** 3)))`
  abbrev pub gelu : Array → Array
  gelu h =
      let inner =
        scale (add h (scale (O.cube h) (literal "0.044715"))) (sqrt_f (div_f (literal "2") O.pi)) in
      mul (scale h (literal "0.5")) (add_scalar (O.tanh inner) (literal "1"))

  unfoldable pub feed_forward : Block → Array → Array
  feed_forward b x = matmul (gelu (matmul x b.ff_w1)) b.ff_w2

  unfoldable pub block_forward : Block → Array → Option Array → Exec World Array
  unfolding layer_norm attention feed_forward
  block_forward b x mask = do
    a ← attention b (layer_norm x b.ln1_gamma b.ln1_beta) mask
    let y = add x a
    pure (add y (feed_forward b (layer_norm y b.ln2_gamma b.ln2_beta)))
