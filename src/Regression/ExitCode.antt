-- ===== src/Regression/ExitCode.antt =====
-- regression_runner.py: the status check of `main`, on the comparisons.
use metal_native.Base.{
  ◌≡◌, ◌↔◌, ◌⊎◌, inl, inr, refl, sym, ◌∙◌, true, false, Bool-cases, Option-cases, some, List, [],
  ◌∷◌, length, keep_if, All, arith,
}
use mathlib.Core.Path.{subst}
use metal_native.Base.Dict.{Dict, lookup}
use metal_native.Base.Exec.{Result, ok, err, ok_injective}
use metal_native.Base.Text.{Text, text_eq}
use metal_native.Regression.{
  Floats, Bench, Comparison, status_of, comparison, compare_with_baseline, and_rest, or_unknown,
  comparisons, is_regression, exit_code,
}

module _ (F : Floats) (baseline : Dict Text (Bench F)) (threshold : F.Float) where
  -- The ratio of a result to its baseline, where it has one, is at most 1 + threshold.
  abbrev pub NotSlower : Bench F → Type 0
  NotSlower r =
      (b : Bench F) (q : F.Float)
      → lookup r.name baseline ≡ some b
      → F.div_f r.median_ms b.median_ms ≡ ok q
      → F.lt_f (F.add_f F.one_f threshold) q ≡ false

  abbrev None : List (Comparison F) → Type 0
  None cs = length (keep_if (is_regression F) cs) ≡ 0

  -- One more result: it has no baseline, or it has the ratio `q` to it.
  status-lem :
      (q : F.Float) (c : Comparison F)
      → c.status ≡ status_of F q threshold
      → is_regression F c ≡ F.lt_f (F.add_f F.one_f threshold) q
  status-lem q c h = elim (Bool-cases (F.lt_f (F.add_f F.one_f threshold) q)) [
    | inl e ↦ rw (h, e) refl
    | inr e ↦ elim (Bool-cases (F.lt_f q (F.sub_f F.one_f threshold))) [
      | inl d ↦ rw (h, e, d) refl
      | inr d ↦ rw (h, e, d) refl
    ]
  ]

  -- The comparison of `r` at the ratio `q` to its baseline `b`.
  abbrev compared : Bench F → Bench F → F.Float → Comparison F
  compared r b q = record {
    name = r.name;
    category = or_unknown F r.category;
    current_ms = r.median_ms;
    baseline_ms = b.median_ms;
    ratio = q;
    change_pct = F.mul_f (F.sub_f q F.one_f) F.hundred_f;
    status = status_of F q threshold;
  }

  and_rest-eq-ok :
      (r b : Bench F) (d : Result F.Float) (rest : Result (List (Comparison F)))
      (cs : List (Comparison F))
      → and_rest F (comparison F r b threshold d) rest ≡ ok cs
      → (q : F.Float) × (tail : List (Comparison F)) × (d ≡ ok q)
        × (rest ≡ ok tail)
        × (compared r b q ∷ tail ≡ cs)
  and_rest-eq-ok r b (err e) rest cs h = cc
  and_rest-eq-ok r b (ok q) (err e) cs h = cc
  and_rest-eq-ok r b (ok q) (ok tail) cs h = (q, tail, refl, refl, ok_injective h)

  None-cons :
      (c : Comparison F) (cs : List (Comparison F))
      → None (c ∷ cs) ↔ ((is_regression F c ≡ false) × None cs)
  None-cons c cs = (λ n. ground arith, λ n. ground arith)

  None-comparisons :
      (results : List (Bench F)) (cs : List (Comparison F))
      → comparisons F results baseline threshold ≡ ok cs
      → None cs ↔ All NotSlower results
  unfolding comparisons compare_with_baseline
  None-comparisons [] cs h = (λ n. tt, λ a. rw (sym (ok_injective h)) refl)
  None-comparisons (r ∷ results) cs h = elim (Option-cases (lookup r.name baseline)) [
    | inl e ↦
        let i = None-comparisons results cs (rw (e, comparisons) at h) in
        (λ n. (λ b q l d. cc, i.0 n), λ a. i.1 a.1)
    | inr (b, e) ↦
        let (q, tail, d, t, c) =
          and_rest-eq-ok r b (F.div_f r.median_ms b.median_ms)
            (comparisons F results baseline threshold) cs (rw (e, comparisons) at h) in
        let i = None-comparisons results tail t in
        let s = status-lem q (compared r b q) refl in
        let k = None-cons (compared r b q) tail in
        (
          λ n. let m = k.0 (subst None (sym c) n) in (λ b' q' l d'. let z = m.0 in cc, i.0 m.1),
          λ a. subst None c (k.1 (s ∙ a.0 b q e d, i.1 a.1)),
        )
  ]

  -- Where the comparisons with the baseline succeed, the status check gives 1 under
  -- --fail-on-regression if some result is slower than its baseline by more than the threshold, and
  -- 0 otherwise; without the option it gives 0.
  pub exit_code_lem :
      (results : List (Bench F)) (cs : List (Comparison F))
      → comparisons F results baseline threshold ≡ ok cs
      → ((exit_code F true cs ≡ 0) ↔ All NotSlower results)
        × ((exit_code F true cs ≡ 0) ⊎ (exit_code F true cs ≡ 1))
        × (exit_code F false cs ≡ 0)
  unfolding exit_code
  exit_code_lem results cs h =
      let i = None-comparisons results cs h in
      ((λ z. i.0 (ground arith), λ a. let n = i.1 a in ground arith), ground arith, refl)
