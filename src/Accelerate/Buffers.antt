-- ===== src/Accelerate/Buffers.antt =====
-- python/metal_native/accelerate_plugin.py: `prepare_model` on a model with buffers in submodules.
use metal_native.Base.{String, ◌≡◌, sym, ◌⊎◌, inl, inr, Option, none, some, List, [], ◌∷◌}
use metal_native.Base.Exec.{Result, ok, err, Exec, ◌>>=◌, ◌>>◌, >>=_cases, then_run, pure}
use mathlib.Core.Path.{subst}
use metal_native.Tensor.{Backend}
use metal_native.Interop.{PyTorch}
use metal_native.Accelerate.{
  Modules, through_metal, move_buffer, move_buffers, move_parameters, prepare_model,
}

abbrev pub Raises {ℓ κ} : {S : Type κ} {A : Type ℓ} → Result A × S → Type 0
Raises (ok a, s) = ⊥
Raises (err e, s) = Unit

module _ (B : Backend) (T : PyTorch B) (M : Modules B T) where
  -- A buffer of that name stands in the list.
  abbrev pub Listed : String → List (String × Option T.Obj) → Type 0
  Listed name [] = ⊥
  Listed name ((n, none) ∷ bs) = Listed name bs
  Listed name ((n, some b) ∷ bs) = (n ≡ name) ⊎ Listed name bs

  -- PyTorch refuses the name, as it does one with a dot.
  abbrev pub Refused : M.Model → String → Type 0
  Refused model name = (o : T.Obj) (w : B.World) → Raises (M.register_buffer model name o w)

  here :
      (model : M.Model) (name : String) (b : T.Obj) (w : B.World)
      → Refused model name
      → Raises (move_buffer B T M model name (some b) w)
  here model name b w h =
      >>=_cases (M.register_buffer model name) (λ r. Raises r) (through_metal B T M b) w
        (λ o e. h o _) (λ x e. tt)

  after-Raises :
      {A C : Type 0} (m : Exec B.World A) (f : A → Exec B.World C) (w : B.World)
      → ((a : A) (v : B.World) → Raises (f a v))
      → Raises ((m >>= f) w)
  after-Raises m f w h = >>=_cases f (λ r. Raises r) m w (λ a e. h a _) (λ x e. tt)

  raised :
      {A C : Type 0} (f : A → Exec B.World C) (r : Result A) (w : B.World)
      → Raises (r, w)
      → Raises (then_run f (r, w))
  raised f (err e) w h = tt
  raised f (ok a) w h = elim h [ ]

  move_buffers-Raises :
      (model : M.Model) (name : String) (bs : List (String × Option T.Obj)) (w : B.World)
      → Refused model name
      → Listed name bs
      → Raises (move_buffers B T M model bs w)
  unfolding move_buffers
  move_buffers-Raises model name [] w h l = elim l [ ]
  move_buffers-Raises model name ((n, none) ∷ bs) w h l = move_buffers-Raises model name bs w h l
  move_buffers-Raises model name ((n, some b) ∷ bs) w h (inl e) =
      let first = move_buffer B T M model n (some b) w in
      let named = subst (Refused model) (sym e) h in
      raised (λ u. move_buffers B T M model bs) first.0 first.1 (here model n b w named)
  move_buffers-Raises model name ((n, some b) ∷ bs) w h (inr l) =
      after-Raises (move_buffer B T M model n (some b)) (λ u. move_buffers B T M model bs) w
        (λ u v. move_buffers-Raises model name bs v h l)

  -- Where every listing of the model's buffers has one, not None, under a name that PyTorch refuses to
  -- register, as it refuses the dotted name of a submodule's buffer, `prepare_model` raises.
  pub prepare_model-Raises :
      (model : M.Model) (name : String) (w : B.World)
      → Refused model name
      → ((v : B.World) (bs : List (String × Option T.Obj))
          → (M.named_buffers model v).0 ≡ ok bs
          → Listed name bs)
      → Raises (prepare_model B T M model w)
  unfolding prepare_model
  prepare_model-Raises model name w h l =
      let last : List (String × Option T.Obj) → Exec B.World M.Model =
        λ buffers. move_buffers B T M model buffers >> pure model in
      let second : List (String × Option M.Param) → Exec B.World M.Model =
        λ ps. move_parameters B T M ps >> (M.named_buffers model >>= last) in
      after-Raises M.import_nn (λ u. M.named_parameters model >>= second) w
        (λ _ v. after-Raises (M.named_parameters model) second v (λ ps t.
          after-Raises (move_parameters B T M ps) (λ u. M.named_buffers model >>= last) t
            (λ _ y.
              >>=_cases last (λ r. Raises r) (M.named_buffers model) y
                (λ bs e.
                  let (r, z) = move_buffers B T M model bs (M.named_buffers model y).1 in
                  raised (λ u. pure model) r z
                    (move_buffers-Raises model name bs (M.named_buffers model y).1 h (l y bs e)))
                (λ x e. tt))))
