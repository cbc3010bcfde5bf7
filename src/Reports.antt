-- ===== src/Reports.antt =====
-- benchmarks/report_generator.py: a report is its lines. The lines of fixed text stand as they are; of
-- the others the values that they show are kept, without the format of the numbers. Emoji are left out.
pub mod Rows
pub mod Counts
pub mod Groups
pub mod Breakdown
mod Tests
use metal_native.Base.{
  ℕ, String, Bool, true, false, Option, none, some, List, [], ◌∷◌, ◌++◌, map, if◌then◌else◌, ltb,
  length, keep_if, take, ◌==◌,
}
use metal_native.Base.Dict.{Dict, lookup, has_key, insert}
use metal_native.Base.Exec.{Exec, pure, ◌>>◌}
use metal_native.Base.Text.{Text, text_eq, text_leb, codes, capitalize, first_part}
use metal_native.Regression.{Floats, Status, regression, improvement, stable, Comparison}

-- The entries of a run's metadata that the reports read.
pub record Meta : Type 0 where
  pub label : Option Text
  pub git_hash : Option Text
  pub git_branch : Option Text

-- `meta.get(key, 'unknown')`
abbrev pub shown : Option Text → Text
shown none = codes "unknown"
shown (some t) = t

abbrev pub status_beq : Status → Status → Bool
status_beq regression regression = true
status_beq improvement improvement = true
status_beq stable stable = true
status_beq a b = false

module _ (F : Floats) where
  pub data Line : Type 0 where
    fixed : String → Line
    generated : Line
    field : String → Text → Line
    baseline : Text → Text → Line
    number : String → ℕ → Line
    category : Text → Line
    row : Comparison F → Line

  abbrev pub has_status : Status → Comparison F → Bool
  has_status s c = status_beq c.status s

  -- `sum(1 for c in comparisons if c["status"] == s)`
  abbrev pub count_status : Status → List (Comparison F) → ℕ
  count_status s cs = length (keep_if (has_status s) cs)

  abbrev pub rows_with : Status → List (Comparison F) → List Line
  rows_with s cs = map row (keep_if (has_status s) cs)

  -- `if n > 0: lines.extend(...)`
  abbrev pub lines_if : ℕ → List Line → List Line
  lines_if n lines = if ltb 0 n then lines else []

  -- `parts[0]` of `comp['name'].split('_')`, which always has a part.
  abbrev pub category_of : Comparison F → Text
  category_of c = first_part b'_' c.name

  abbrev pub or_empty : Option (List (Comparison F)) → List (Comparison F)
  or_empty none = []
  or_empty (some cs) = cs

  abbrev pub Categories : Type 0
  Categories = Dict Text (List (Comparison F))

  -- One iteration of the loop that sorts the comparisons into categories.
  abbrev pub add_to_category : Comparison F → Categories → Categories
  add_to_category c d =
      let k = category_of c in
      let d' = if has_key k d then d else insert k [] d in
      insert k (or_empty (lookup k d') ++ c ∷ []) d'

  unfoldable pub group_from : List (Comparison F) → Categories → Categories
  group_from [] d = d
  group_from (c ∷ cs) d = group_from cs (add_to_category c d)

  -- `sorted(categories.items())`; the keys differ, so that no two lists are compared.
  abbrev pub insert_item : Text × List (Comparison F) → Categories → Categories
  insert_item item [] = item ∷ []
  insert_item item (other ∷ items) =
      let rest = insert_item item items in
      if text_leb item.0 other.0 then item ∷ other ∷ items else other ∷ rest

  unfoldable pub sort_items : Categories → Categories
  sort_items [] = []
  sort_items (item ∷ items) = insert_item item (sort_items items)

  abbrev pub category_lines : Categories → List Line
  category_lines [] = []
  category_lines ((k, comps) ∷ items) =
      category (capitalize k)
      ∷ fixed ""
      ∷ number "- Total" (length comps)
      ∷ number "- Regressions" (count_status regression comps)
      ∷ number "- Improvements" (count_status improvement comps)
      ∷ fixed ""
      ∷ category_lines items

  -- `_generate_category_breakdown`
  unfoldable pub category_breakdown : List (Comparison F) → List Line
  unfolding group_from sort_items
  category_breakdown cs =
      fixed "## Category Breakdown" ∷ fixed "" ∷ category_lines (sort_items (group_from cs []))

  abbrev pub markdown_table : String → List Line → List Line
  markdown_table title rows =
      fixed title
        ∷ fixed ""
        ∷ fixed "| Benchmark | Current (ms) | Baseline (ms) | Change | Status |"
        ∷ fixed "|-----------|--------------|---------------|--------|--------|"
        ∷ rows
      ++ fixed "" ∷ []

  -- The lines of `generate_markdown_report`, which it joins.
  unfoldable pub markdown_lines : List (Comparison F) → Meta → Meta → List Line
  unfolding category_breakdown
  markdown_lines cs current before =
      let regressions = count_status regression cs in
      let improvements = count_status improvement cs in
      fixed "# Performance Regression Test Report"
        ∷ fixed ""
        ∷ generated
        ∷ fixed ""
        ∷ fixed "## Summary"
        ∷ fixed ""
        ∷ field "- **Current Git Hash:**" (shown current.git_hash)
        ∷ field "- **Current Branch:**" (shown current.git_branch)
        ∷ baseline (shown before.label) (take 8 (shown before.git_hash))
        ∷ number "- **Total Benchmarks:**" (length cs)
        ∷ fixed ""
        ∷ fixed "### Status Breakdown"
        ∷ fixed ""
        ∷ number "- **Stable:**" (count_status stable cs)
        ∷ number "- **Improvements:**" improvements
        ∷ number "- **Regressions:**" regressions
        ∷ fixed ""
        ∷ lines_if regressions (markdown_table "## Regressions Detected" (rows_with regression cs))
      ++ (lines_if improvements (markdown_table "## Improvements" (rows_with improvement cs))
          ++ (markdown_table "## All Results" (map row cs) ++ category_breakdown cs))

  abbrev pub double_rule : Line
  double_rule =
      fixed "================================================================================"

  abbrev pub single_rule : Line
  single_rule =
      fixed "--------------------------------------------------------------------------------"

  -- The head of a section, by its title and the head of its table.
  abbrev pub text_head : String → String → List Line → List Line
  text_head title columns lines =
      double_rule ∷ fixed title ∷ double_rule ∷ fixed "" ∷ fixed columns ∷ single_rule ∷ lines

  abbrev pub text_table : String → List Line → List Line
  text_table title rows =
      text_head title "Benchmark / Current / Baseline / Change" (rows ++ fixed "" ∷ [])

  -- The lines of `generate_text_report`, which it joins; the padding of the columns is left out.
  unfoldable pub text_lines : List (Comparison F) → Meta → Meta → List Line
  text_lines cs current before =
      let regressions = count_status regression cs in
      let improvements = count_status improvement cs in
      double_rule
        ∷ fixed "PERFORMANCE REGRESSION TEST REPORT"
        ∷ double_rule
        ∷ fixed ""
        ∷ generated
        ∷ field "Current Git Hash:" (take 12 (shown current.git_hash))
        ∷ baseline (shown before.label) (take 8 (shown before.git_hash))
        ∷ fixed ""
        ∷ double_rule
        ∷ fixed "SUMMARY"
        ∷ double_rule
        ∷ fixed ""
        ∷ number "Total Benchmarks:" (length cs)
        ∷ number "  - Stable:" (count_status stable cs)
        ∷ number "  - Improvements:" improvements
        ∷ number "  - Regressions:" regressions
        ∷ fixed ""
        ∷ lines_if regressions (text_table "REGRESSIONS DETECTED" (rows_with regression cs))
      ++ (lines_if improvements (text_table "IMPROVEMENTS" (rows_with improvement cs))
          ++ text_head "ALL RESULTS" "Benchmark / Current / Baseline / Change / Status"
              (map row cs ++ double_rule ∷ []))

  pub record Summary : Type 0 where
    pub total : ℕ
    pub stable_count : ℕ
    pub improvement_count : ℕ
    pub regression_count : ℕ

  pub record JsonReport : Type 0 where
    pub current : Meta
    pub before : Meta
    pub summary : Summary
    pub regressions : List (Comparison F)
    pub improvements : List (Comparison F)
    pub all_results : List (Comparison F)

  -- The dictionary of `generate_json_report`, without the time.
  unfoldable pub json_report : List (Comparison F) → Meta → Meta → JsonReport
  json_report cs current before =
      let regressions = keep_if (has_status regression) cs in
      let improvements = keep_if (has_status improvement) cs in
      let stable_ones = keep_if (has_status stable) cs in
      record {
        current = current;
        before = before;
        summary = record {
          total = length cs;
          stable_count = length stable_ones;
          improvement_count = length improvements;
          regression_count = length regressions;
        };
        regressions = regressions;
        improvements = improvements;
        all_results = cs;
      }

  -- `if output_file: ...`, where an empty name is false; then the report is returned. How a report is
  -- written is a parameter, which may raise.
  abbrev pub written_to :
      {W R : Type 0} → (Text → R → Exec W (Unit {0})) → Option Text → R → Exec W R
  written_to write none report = pure report
  written_to write (some []) report = pure report
  written_to write (some (c ∷ name)) report = write (c ∷ name) report >> pure report

  unfoldable pub generate_markdown_report :
      {W : Type 0}
      → (Text → List Line → Exec W (Unit {0}))
      → List (Comparison F)
      → Meta
      → Meta
      → Option Text
      → Exec W (List Line)
  unfolding markdown_lines
  generate_markdown_report write cs current before output_file =
      written_to write output_file (markdown_lines cs current before)

  unfoldable pub generate_json_report :
      {W : Type 0}
      → (Text → JsonReport → Exec W (Unit {0}))
      → List (Comparison F)
      → Meta
      → Meta
      → Option Text
      → Exec W JsonReport
  unfolding json_report
  generate_json_report write cs current before output_file =
      written_to write output_file (json_report cs current before)
