-- ===== src/Generation/Tests.antt =====
-- examples/llm_generation.py with a model that counts down in its state.
use metal_native.Base.{ℕ, ◌-◌, ◌<◌, length, length-append, ap, ◌≡◌, refl, List, [], ◌∷◌, arith}
use metal_native.Base.Exec.{ok, err, index_error, Exec, pure, then_run}
use metal_native.Base.Text.{codes}
use metal_native.Generation.{Sampler, Model, last_of, sample_token, next_token, generate_text}
use metal_native.Generation.Text.{create_simple_vocab, ids_to_text}
use metal_native.Generation.Stop.{Samples, Stopped, generate_text-Stopped}
use metal_native.Generation.Window.{length-last_of, other, AgreeWithin, generate_text-AgreeWithin}

abbrev sampler : Sampler
sampler = record {
  World = ℕ;
  Float = ℕ;
  Array = ℕ;
  divide = λ a x. pure a;
  kth_largest = λ a k. pure 0;
  remove_below = λ a x. pure a;
  max = λ a. pure 0;
  subtract = λ a x. pure a;
  exp = λ a. pure a;
  sum = λ a. pure 1;
  choice = λ a. pure a;
}

-- As MiniGPT, it raises where there is no token.
abbrev countdown : List ℕ → Exec ℕ ℕ
countdown [] w = (err index_error, w)
countdown (x ∷ xs) w = (ok w, w - 1)

abbrev model : Model sampler
model = record { Logits = ℕ; max_seq_len = 2; forward = countdown; last_position = λ l. pure l }

the_prompt :
    ids_to_text (λ i. []) (1 ∷ 2 ∷ 3 ∷ 4 ∷ 5 ∷ []) create_simple_vocab ≡ codes "the cat sat on mat"
unfolding ids_to_text create_simple_vocab
the_prompt = refl

sees_the_end : last_of {A = ℕ} 2 (4 ∷ 5 ∷ 6 ∷ []) ≡ 5 ∷ 6 ∷ []
unfolding last_of
sees_the_end = refl

stops_at_zero : generate_text sampler model 1 5 (9 ∷ []) 7 2 ≡ (ok (9 ∷ 2 ∷ 1 ∷ 0 ∷ []), 0)
unfolding generate_text
stops_at_zero = refl

abbrev HasTokens : List ℕ → ℕ → Type 0
HasTokens ids w = 0 < length ids

counts : (xs : List ℕ) (w : ℕ) → 0 < length xs → countdown xs w ≡ (ok w, w - 1)
counts [] w p = absurd (omega (arith, p))
counts (x ∷ xs) w p = refl

model-Samples : Samples sampler model 1 5 HasTokens
unfolding next_token sample_token
model-Samples ids w r =
    let l = length-last_of 2 ids (omega arith) r in
    let sample : ℕ → Exec ℕ ℕ = λ logits. sample_token sampler logits 1 5 in
    (
      w,
      w - 1,
      ap (then_run sample) (counts (last_of 2 ids) w l.0),
      omega (arith, length-append ids (w ∷ [])),
    )

generate_text-Stopped_example :
    (ts : List ℕ) × ((generate_text sampler model 1 5 (9 ∷ []) 7 2).0 ≡ ok (9 ∷ ts)) × Stopped 7 ts
generate_text-Stopped_example =
    generate_text-Stopped sampler model 1 5 HasTokens (9 ∷ []) 7 2 model-Samples (omega arith)

-- Another pass, which answers 5 on a list of no token or of more than two.
abbrev other_pass : List ℕ → Exec ℕ ℕ
other_pass [] w = (ok 5, w)
other_pass (a ∷ []) w = countdown (a ∷ []) w
other_pass (a ∷ (b ∷ [])) w = countdown (a ∷ []) w
other_pass (a ∷ (b ∷ (c ∷ xs))) w = (ok 5, w)

passes_agree : AgreeWithin sampler model other_pass
passes_agree [] w p q = absurd (omega (arith, p))
passes_agree (a ∷ []) w p q = refl
passes_agree (a ∷ (b ∷ [])) w p q = refl
passes_agree (a ∷ (b ∷ (c ∷ xs))) w p q = absurd (omega (arith, q))

generate_text-AgreeWithin_example :
    generate_text sampler model 1 5 (9 ∷ []) 7 2
    ≡ generate_text sampler (other sampler model other_pass) 1 5 (9 ∷ []) 7 2
generate_text-AgreeWithin_example =
    generate_text-AgreeWithin sampler model other_pass 1 5 (9 ∷ []) 7 2 passes_agree (omega arith)
      (omega arith)
