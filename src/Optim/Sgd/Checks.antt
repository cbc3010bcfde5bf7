-- ===== src/Optim/Sgd/Checks.antt =====
-- sgd.py and adam.py: what the constructors accept.
use metal_native.Base.{ℕ, ◌≡◌, refl, true, false, List, [], ◌∷◌, arith, ◌==◌, nat_eq, if◌then◌else◌}
use metal_native.Base.Dict.{Dict}
use metal_native.Base.Exec.{Exn, ok, err, value_error}
use metal_native.Optim.Numeric.{Numeric}
use metal_native.Optim.Param.{Heap}
use metal_native.Optim.Adam
use metal_native.Optim.Adam.{Adam}
use metal_native.Optim.Sgd.{Options, Sgd, current, sgd_init, nesterov_misused}

module _ (N : Numeric) where
  open N use {zero_f, one_f, lt_f, le_f}

  -- The options that MetalSGD accepts.
  pub record Accepted (o : Options N) : Type 0 where
    pub lr : lt_f o.lr zero_f ≡ false
    pub momentum : lt_f o.momentum zero_f ≡ false
    pub weight_decay : lt_f o.weight_decay zero_f ≡ false
    pub nesterov : nesterov_misused N o ≡ false

  -- MetalSGD makes an optimizer exactly for the accepted options, over one group and with no
  -- momentum buffer; for all others it raises, and what it raises is a ValueError.
  sgd_init_lem :
      (o : Options N) (params : List ℕ) (a : ℕ) (dicts : ℕ → Dict ℕ N.Array) (heap : Heap N)
      → (Accepted o
          → (s : Sgd N) × (sgd_init N o params a dicts heap ≡ ok s)
            × (current N s ≡ [])
            × (s.options ≡ o)
            × (s.param_groups ≡ params ∷ [])
            × (s.heap ≡ heap))
        × ((s : Sgd N) → sgd_init N o params a dicts heap ≡ ok s → Accepted o)
        × ((e : Exn) → sgd_init N o params a dicts heap ≡ err e → e ≡ value_error)
  unfolding sgd_init
  sgd_init_lem o params a dicts heap = (
    λ h. (
      record {
        options = o;
        param_groups = params ∷ [];
        state = a;
        dicts = λ b. if a == b then [] else dicts b;
        heap = heap;
      },
      ground arith,
      ground arith,
      refl,
      refl,
      refl,
    ),
    λ s h. record {
      lr = ground arith;
      momentum = ground arith;
      weight_decay = ground arith;
      nesterov = ground arith;
    },
    λ e h. ground arith,
  )

  -- The options that MetalAdam accepts.
  pub record AdamAccepted (o : Adam.Options N) : Type 0 where
    pub lr : lt_f o.lr zero_f ≡ false
    pub eps : lt_f o.eps zero_f ≡ false
    pub beta1 : (le_f zero_f o.beta1 ≡ true) × (lt_f o.beta1 one_f ≡ true)
    pub beta2 : (le_f zero_f o.beta2 ≡ true) × (lt_f o.beta2 one_f ≡ true)
    pub weight_decay : lt_f o.weight_decay zero_f ≡ false

  -- MetalAdam makes an optimizer exactly for the accepted options, with both betas in [0, 1), a count
  -- of zero and an empty state; for all others it raises, and what it raises is a ValueError.
  adam_init_lem :
      (o : Adam.Options N) (params : List ℕ) (a : ℕ) (dicts : ℕ → Dict ℕ (Adam.Moments N))
      (heap : Heap N)
      → (AdamAccepted o
          → (s : Adam N) × (Adam.adam_init N o params a dicts heap ≡ ok s)
            × (s.step_count ≡ 0)
            × (Adam.current N s ≡ [])
            × (s.options ≡ o)
            × (s.param_groups ≡ params ∷ [])
            × (s.heap ≡ heap))
        × ((s : Adam N) → Adam.adam_init N o params a dicts heap ≡ ok s → AdamAccepted o)
        × ((e : Exn) → Adam.adam_init N o params a dicts heap ≡ err e → e ≡ value_error)
  unfolding Adam.adam_init
  adam_init_lem o params a dicts heap = (
    λ h. (
      record {
        options = o;
        param_groups = params ∷ [];
        state = a;
        step_count = 0;
        dicts = λ b. if a == b then [] else dicts b;
        heap = heap;
      },
      ground arith,
      refl,
      ground arith,
      refl,
      refl,
      refl,
    ),
    λ s h. record {
      lr = ground arith;
      eps = ground arith;
      beta1 = ground arith;
      beta2 = ground arith;
      weight_decay = ground arith;
    },
    λ e h. ground arith,
  )
