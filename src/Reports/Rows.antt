-- ===== src/Reports/Rows.antt =====
-- report_generator.py: which comparisons the three reports show, and how often.
use metal_native.Base.{
  ◌≡◌, ◌∙◌, refl, ap, inl, inr, Bool-cases, List, [], ◌∷◌, ◌++◌, append-nil, map, ltb, length,
  keep_if, arith,
}
use metal_native.Regression.{Floats, regression, improvement, Comparison}
use metal_native.Reports.{
  Line, fixed, generated, field, baseline, number, category, row, Meta, has_status, count_status,
  rows_with, lines_if, Categories, group_from, sort_items, category_lines, category_breakdown,
  markdown_table, markdown_lines, text_table, text_head, double_rule, text_lines, json_report,
}

module _ (F : Floats) where
  -- The comparisons that the lines show, in their order.
  abbrev pub comparisons_of : List (Line F) → List (Comparison F)
  comparisons_of [] = []
  comparisons_of (row c ∷ lines) = c ∷ comparisons_of lines
  comparisons_of (fixed t ∷ lines) = comparisons_of lines
  comparisons_of (generated ∷ lines) = comparisons_of lines
  comparisons_of (field t v ∷ lines) = comparisons_of lines
  comparisons_of (baseline l h ∷ lines) = comparisons_of lines
  comparisons_of (number t n ∷ lines) = comparisons_of lines
  comparisons_of (category t ∷ lines) = comparisons_of lines

  comparisons_of-append :
      (xs ys : List (Line F)) → comparisons_of (xs ++ ys) ≡ comparisons_of xs ++ comparisons_of ys
  comparisons_of-append [] ys = refl
  comparisons_of-append (row c ∷ xs) ys = ap (λ l. c ∷ l) (comparisons_of-append xs ys)
  comparisons_of-append (fixed t ∷ xs) ys = comparisons_of-append xs ys
  comparisons_of-append (generated ∷ xs) ys = comparisons_of-append xs ys
  comparisons_of-append (field t v ∷ xs) ys = comparisons_of-append xs ys
  comparisons_of-append (baseline l h ∷ xs) ys = comparisons_of-append xs ys
  comparisons_of-append (number t n ∷ xs) ys = comparisons_of-append xs ys
  comparisons_of-append (category t ∷ xs) ys = comparisons_of-append xs ys

  -- Rows, and then lines that show none.
  comparisons_of-rows :
      (cs : List (Comparison F)) (rest : List (Line F))
      → comparisons_of rest ≡ []
      → comparisons_of (map row cs ++ rest) ≡ cs
  comparisons_of-rows [] rest h = h
  comparisons_of-rows (c ∷ cs) rest h = ap (λ l. c ∷ l) (comparisons_of-rows cs rest h)

  comparisons_of-category_lines : (d : Categories F) → comparisons_of (category_lines F d) ≡ []
  comparisons_of-category_lines [] = refl
  comparisons_of-category_lines ((k, comps) ∷ d) = comparisons_of-category_lines d

  -- A section that is there if it has rows.
  comparisons_of-lines_if :
      (cs : List (Comparison F)) (lines : List (Line F))
      → comparisons_of lines ≡ cs
      → comparisons_of (lines_if F (length cs) lines) ≡ cs
  comparisons_of-lines_if [] lines h = refl
  comparisons_of-lines_if (c ∷ cs) lines h = elim (Bool-cases (ltb 0 (length (c ∷ cs)))) [
    | inl e ↦ rw e h
    | inr e ↦
        absurd (let z : ltb 0 (length (c ∷ cs)) ≡ ltb 0 (length (c ∷ cs)) = refl in ground arith)
  ]

  -- What a report shows: the regressions, the improvements, and then all.
  abbrev pub expected : List (Comparison F) → List (Comparison F)
  expected cs =
      keep_if (has_status F regression) cs ++ (keep_if (has_status F improvement) cs ++ cs)

  -- Two sections with the regressions and the improvements, and one with all.
  sections_lem :
      (cs : List (Comparison F)) (a b c : List (Line F))
      → comparisons_of a ≡ keep_if (has_status F regression) cs
      → comparisons_of b ≡ keep_if (has_status F improvement) cs
      → comparisons_of c ≡ cs
      → comparisons_of (
          lines_if F (count_status F regression cs) a
          ++ (lines_if F (count_status F improvement cs) b ++ c))
        ≡ expected cs
  sections_lem cs a b c h i j =
      let first = lines_if F (count_status F regression cs) a in
      let second = lines_if F (count_status F improvement cs) b in
      comparisons_of-append first (second ++ c)
      ∙ ap (λ l. l ++ comparisons_of (second ++ c))
          (comparisons_of-lines_if (keep_if (has_status F regression) cs) a h)
      ∙ ap (λ l. keep_if (has_status F regression) cs ++ l)
          (comparisons_of-append second c
            ∙ ap (λ l. l ++ comparisons_of c)
                (comparisons_of-lines_if (keep_if (has_status F improvement) cs) b i)
            ∙ ap (λ l. keep_if (has_status F improvement) cs ++ l) j)

  markdown_lines-rows :
      (cs : List (Comparison F)) (current before : Meta)
      → comparisons_of (markdown_lines F cs current before) ≡ expected cs
  unfolding markdown_lines category_breakdown
  markdown_lines-rows cs current before =
      let end =
        fixed "## Category Breakdown"
        ∷ fixed ""
        ∷ category_lines F (sort_items F (group_from F cs [])) in
      let table = markdown_table F "## All Results" (map row cs) in
      sections_lem cs (markdown_table F "## Regressions Detected" (rows_with F regression cs))
        (markdown_table F "## Improvements" (rows_with F improvement cs)) (table ++ end)
        (comparisons_of-rows (keep_if (has_status F regression) cs) (fixed "" ∷ []) refl)
        (comparisons_of-rows (keep_if (has_status F improvement) cs) (fixed "" ∷ []) refl)
        (comparisons_of-append table end
          ∙ ap (λ l. l ++ comparisons_of end) (comparisons_of-rows cs (fixed "" ∷ []) refl)
          ∙ ap (λ l. cs ++ l) (comparisons_of-category_lines (sort_items F (group_from F cs [])))
          ∙ append-nil cs)

  text_lines-rows :
      (cs : List (Comparison F)) (current before : Meta)
      → comparisons_of (text_lines F cs current before) ≡ expected cs
  unfolding text_lines
  text_lines-rows cs current before =
      sections_lem cs (text_table F "REGRESSIONS DETECTED" (rows_with F regression cs))
        (text_table F "IMPROVEMENTS" (rows_with F improvement cs))
        (text_head F "ALL RESULTS" "Benchmark / Current / Baseline / Change / Status"
          (map row cs ++ double_rule F ∷ []))
        (comparisons_of-rows (keep_if (has_status F regression) cs) (fixed "" ∷ []) refl)
        (comparisons_of-rows (keep_if (has_status F improvement) cs) (fixed "" ∷ []) refl)
        (comparisons_of-rows cs (double_rule F ∷ []) refl)

  -- The rows of the Markdown report and of the text report are the same comparisons in the same
  -- order: the regressions, the improvements, and then all comparisons. The JSON report has these
  -- three as its lists. So each report shows every comparison, and twice where it is not stable.
  pub reports_lem :
      (cs : List (Comparison F)) (current before : Meta)
      → (comparisons_of (markdown_lines F cs current before) ≡ expected cs)
        × (comparisons_of (text_lines F cs current before) ≡ expected cs)
        × (let r = json_report F cs current before in
            (r.regressions ≡ keep_if (has_status F regression) cs)
            × (r.improvements ≡ keep_if (has_status F improvement) cs)
            × (r.all_results ≡ cs))
  unfolding json_report
  reports_lem cs current before =
      (markdown_lines-rows cs current before, text_lines-rows cs current before, (refl, refl, refl))
