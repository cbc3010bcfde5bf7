-- ===== src/Baselines/Tests.antt =====
-- Runs of baseline_manager.py on a small directory, and its theorems there.
use metal_native.Base.{◌≡◌, inl, refl, false, List, [], ◌∷◌, ◌==◌, none, some}
use metal_native.Base.Exec.{ok, err, file_not_found}
use metal_native.Base.Text.{Text, text_eq, codes}
use metal_native.Baselines.{
  Baseline, baseline, file, link, malformed, Directory, file_name, latest_link, save_baseline,
  load_baseline, delete_baseline, list_baselines, get_baseline_by_git_hash, info,
}
use metal_native.Baselines.Latest.{IsFile, load_baseline-save_baseline}
use metal_native.Baselines.Ideal.{
  Call, save, delete, load, of_save, of_delete, of_load, call, Store, ideal_call, replies,
}
use metal_native.Baselines.Refinement.{Refines, replies-call}
use metal_native.Baselines.Dangling.{save_baseline_latest, delete_baseline_latest}

abbrev made : Text → Baseline
made s = record { label = s; git_hash = codes "ab1"; git_branch = codes "main"; results = 4 ∷ [] }

abbrev directory : Directory
directory =
    (codes "b.json", file (baseline (made (codes "b"))))
    ∷ (codes "a.json", file (baseline (made (codes "a"))))
    ∷ (codes "bad.json", file malformed)
    ∷ (codes "latest.json", link (codes "a.json"))
    ∷ []

lists_sorted :
    list_baselines directory ≡ ok (info (made (codes "a")) ∷ info (made (codes "b")) ∷ [])
unfolding list_baselines
lists_sorted = refl

finds_by_hash : get_baseline_by_git_hash (codes "ab") directory ≡ ok (some (made (codes "b")))
unfolding get_baseline_by_git_hash
finds_by_hash = refl

load_baseline-save_baseline_example :
    (e : Directory) × (save_baseline (codes "c") (made (codes "c")) directory ≡ (ok (codes "c"), e))
    × (load_baseline (codes "c") e ≡ ok (made (codes "c")))
    × (load_baseline (codes "latest") e ≡ ok (made (codes "c")))
    × ((other : Text) (b : Baseline)
        → (latest_link == file_name other) ≡ false
        → (file_name (codes "c") == file_name other) ≡ false
        → IsFile (file_name other) (baseline b) directory
        → load_baseline other e ≡ ok b)
load_baseline-save_baseline_example =
    load_baseline-save_baseline (codes "c") (made (codes "c")) directory refl (inl refl)

save_baseline_latest_example :
    (e : Directory) × (save_baseline (codes "latest") (made (codes "latest")) directory
      ≡ (ok (codes "latest"), e))
    × (load_baseline (codes "latest") e ≡ err file_not_found)
    × (load_baseline (codes "a") e ≡ ok (made (codes "latest")))
save_baseline_latest_example =
    save_baseline_latest (codes "a") (baseline (made (codes "a"))) (made (codes "latest")) directory
      refl refl refl

delete_baseline_latest_example :
    (s e : Directory) × (save_baseline (codes "c") (made (codes "c")) directory
      ≡ (ok (codes "c"), s))
    × (delete_baseline (codes "c") s ≡ (ok tt, e))
    × (load_baseline (codes "c") e ≡ err file_not_found)
    × (load_baseline (codes "latest") e ≡ err file_not_found)
delete_baseline_latest_example =
    delete_baseline_latest (codes "c") (made (codes "c")) directory refl (inl refl)

abbrev calls : List Call
calls =
    load (codes "latest")
    ∷ save (codes "a") (made (codes "a"))
    ∷ save (codes "b") (made (codes "b"))
    ∷ delete (codes "b")
    ∷ load (codes "latest")
    ∷ load (codes "a")
    ∷ []

abbrev empty : Store
empty = record { under = λ k. none; last = none }

empty-Refines : Refines [] empty
empty-Refines = record { files = λ k m. refl; latest = refl; proper = tt }

-- The label of the last save was deleted, so "latest" loads nothing though "a" is there.
answers :
    replies ideal_call calls empty
    ≡ of_load (err file_not_found)
      ∷ of_save (ok (codes "a"))
      ∷ of_save (ok (codes "b"))
      ∷ of_delete (ok tt)
      ∷ of_load (err file_not_found)
      ∷ of_load (ok (made (codes "a")))
      ∷ []
unfolding ideal_call
answers = refl

replies-call_example : replies call calls [] ≡ replies ideal_call calls empty
replies-call_example =
    replies-call calls [] empty (tt, (refl, (refl, (refl, (tt, (tt, tt)))))) empty-Refines
