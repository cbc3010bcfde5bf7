-- ===== src/Baselines/Refinement.antt =====
-- benchmarks/baseline_manager.py: the directory refines the store of Ideal.
use metal_native.Base.{
  ◌≡◌, ◌∙◌, inl, inr, ap, refl, Bool, true, false, Option, none, some, List, [], ◌∷◌, All,
  if◌then◌else◌, ◌==◌, arith,
}
use metal_native.Base.Dict.{lookup, erase, lookup-erase}
use metal_native.Base.Exec.{err, file_not_found}
use metal_native.Base.Text.{Text, text_eq, text_beq_iff, text_beq-append, codes}
use metal_native.Baselines.{
  Baseline, Entry, baseline, file, link, Directory, file_name, latest_link, resolve, read_file,
  path_exists, content_at, load_baseline, delete_baseline,
}
use metal_native.Baselines.Latest.{
  follow-none, follow-link, read_file-IsFile, read_file-link, load_baseline-read_file, NotLink,
  saved, lookup-saved, save_baseline-NotLink,
}
use metal_native.Baselines.Dangling.{load_baseline_missing}
use metal_native.Baselines.Ideal.{
  Call, save, delete, load, Reply, of_load, call, Store, fetch, fetch_last, remove, ideal_call,
  IsProper, replies,
}

abbrev entry_of : Option Baseline → Option Entry
entry_of none = none
entry_of (some b) = some (file (baseline b))

abbrev link_of : Option Text → Option Entry
link_of none = none
link_of (some l) = some (link (file_name l))

abbrev Proper : Option Text → Type 0
Proper none = Unit
Proper (some l) = (l == codes "latest") ≡ false

-- The files are the baselines of the store under their labels, and latest.json leads to the file of
-- the last save, which may be gone.
pub record Refines (d : Directory) (s : Store) : Type 0 where
  pub files :
      (k : Text) → (k == codes "latest") ≡ false → lookup (file_name k) d ≡ entry_of (s.under k)
  pub latest : lookup latest_link d ≡ link_of s.last
  pub proper : Proper s.last

entry-NotLink :
    (name : Text) (d : Directory) (o : Option Baseline)
    → lookup name d ≡ entry_of o
    → NotLink name d
entry-NotLink name d none h = inl h
entry-NotLink name d (some b) h = inr (baseline b, h)

not_latest : (l : Text) → (l == codes "latest") ≡ false → (latest_link == file_name l) ≡ false
not_latest l h =
    text_beq-append (codes "latest") l (codes ".json")
    ∙ ground (arith, text_beq_iff l (codes "latest"), text_beq_iff (codes "latest") l)

read_file-none :
    (name : Text) (d : Directory) → lookup name d ≡ none → read_file name d ≡ err file_not_found
unfolding read_file resolve
read_file-none name d h = ap (content_at d) (follow-none 40 name d h) ∙ rw h

read_file-dangling :
    (name target : Text) (d : Directory)
    → lookup name d ≡ some (link target)
    → lookup target d ≡ none
    → read_file name d ≡ err file_not_found
unfolding read_file resolve
read_file-dangling name target d h k =
    ap (content_at d) (follow-link 40 name target d h ∙ follow-none 39 target d k) ∙ rw k

load_entry :
    (l : Text) (d : Directory) (o : Option Baseline)
    → lookup (file_name l) d ≡ entry_of o
    → load_baseline l d ≡ fetch o
load_entry l d none h =
    load_baseline_missing l (err file_not_found) d (read_file-none (file_name l) d h)
      (file_not_found, refl)
load_entry l d (some b) h =
    load_baseline-read_file l b d (read_file-IsFile (file_name l) (baseline b) d h)

saved-Refines :
    (l : Text) (b : Baseline) (d : Directory) (s : Store)
    → (l == codes "latest") ≡ false
    → Refines d s
    → Refines (saved l b d) (ideal_call (save l b) s).1
unfolding ideal_call
saved-Refines l b d s n h = record {
  files = λ k m.
      rw (lookup-saved l b d (file_name k), not_latest k m, text_beq-append l k (codes ".json"))
        (chosen k (l == k) (h.files k m));
  latest = lookup-saved l b d latest_link;
  proper = n;
}
  where
    chosen :
        (k : Text) (t : Bool)
        → lookup (file_name k) d ≡ entry_of (s.under k)
        → (if t then some (file (baseline b)) else lookup (file_name k) d)
          ≡ entry_of (if t then some b else s.under k)
    chosen k true e = refl
    chosen k false e = e

erased-Refines :
    (l : Text) (d : Directory) (s : Store)
    → (l == codes "latest") ≡ false
    → Refines d s
    → Refines (erase (file_name l) d) (record s { under = λ k. if l == k then none else s.under k })
erased-Refines l d s n h = record {
  files = λ k m.
      rw (lookup-erase (file_name l) (file_name k) d, text_beq-append l k (codes ".json"))
        (chosen k (l == k) (h.files k m));
  latest =
      rw
        (
          lookup-erase (file_name l) latest_link d,
          text_beq-append l (codes "latest") (codes ".json"),
          n,
        )
        h.latest;
  proper = h.proper;
}
  where
    chosen :
        (k : Text) (t : Bool)
        → lookup (file_name k) d ≡ entry_of (s.under k)
        → (if t then none else lookup (file_name k) d) ≡ entry_of (if t then none else s.under k)
    chosen k true e = refl
    chosen k false e = e

-- The reply and the state after a call on each side agree.
abbrev Agree : Reply × Directory → Reply × Store → Type 0
Agree (r, d) (q, s) = (r ≡ q) × Refines d s

delete-Agree :
    (l : Text) (d : Directory) (s : Store) (o : Option Baseline)
    → (l == codes "latest") ≡ false
    → Refines d s
    → s.under l ≡ o
    → Agree (call (delete l) d) (remove l s o)
unfolding call delete_baseline path_exists
delete-Agree l d s none n h e =
    rw (read_file-none (file_name l) d (h.files l n ∙ ap entry_of e)) (refl, h)
delete-Agree l d s (some b) n h e =
    rw (read_file-IsFile (file_name l) (baseline b) d (h.files l n ∙ ap entry_of e))
      (refl, erased-Refines l d s n h)

load_last :
    (d : Directory) (s : Store) (o : Option Text)
    → Refines d s
    → Proper o
    → lookup latest_link d ≡ link_of o
    → load_baseline (codes "latest") d ≡ fetch_last s o
load_last d s none h p e =
    load_baseline_missing (codes "latest") (err file_not_found) d (read_file-none latest_link d e)
      (file_not_found, refl)
load_last d s (some l) h p e = through (s.under l) refl
  where
    through : (o : Option Baseline) → s.under l ≡ o → load_baseline (codes "latest") d ≡ fetch o
    through none m =
        load_baseline_missing (codes "latest") (err file_not_found) d
          (read_file-dangling latest_link (file_name l) d e (h.files l p ∙ ap entry_of m))
          (file_not_found, refl)
    through (some b) m =
        load_baseline-read_file (codes "latest") b d
          (read_file-link latest_link (file_name l) (baseline b) d e (h.files l p ∙ ap entry_of m))

load-Agree :
    (l : Text) (d : Directory) (s : Store)
    → Refines d s
    → Agree (call (load l) d) (ideal_call (load l) s)
unfolding call ideal_call
load-Agree l d s h = (by_label (l == codes "latest") refl, h)
  where
    by_label :
        (t : Bool)
        → (l == codes "latest") ≡ t
        → of_load (load_baseline l d)
          ≡ of_load (if t then fetch_last s s.last else fetch (s.under l))
    by_label true e =
        ap (λ k. of_load (load_baseline k d)) ((text_beq_iff l (codes "latest")).0 e)
        ∙ ap of_load (load_last d s s.last h h.proper h.latest)
    by_label false e = ap of_load (load_entry l d (s.under l) (h.files l e))

save-Agree :
    (l : Text) (b : Baseline) (d : Directory) (s : Store)
    → (l == codes "latest") ≡ false
    → Refines d s
    → Agree (call (save l b) d) (ideal_call (save l b) s)
unfolding call ideal_call
save-Agree l b d s n h =
    rw (save_baseline-NotLink l b d (entry-NotLink (file_name l) d (s.under l) (h.files l n)))
      (refl, saved-Refines l b d s n h)

call-Agree :
    (c : Call) (d : Directory) (s : Store)
    → IsProper c
    → Refines d s
    → Agree (call c d) (ideal_call c s)
unfolding ideal_call
call-Agree (save l b) d s p h = save-Agree l b d s p h
call-Agree (delete l) d s p h = delete-Agree l d s (s.under l) p h refl
call-Agree (load l) d s p h = load-Agree l d s h

-- A directory of plain files for the baselines of a store, with latest.json leading to the file of
-- its last save, gives the same replies as the store to any sequence of saves, deletions and loads in
-- which nothing is saved or deleted under the label "latest": every load gives what was last saved
-- under the label and not deleted since, else FileNotFoundError, and a load of "latest" gives what
-- the label of the last save holds.
pub replies-call :
    (cs : List Call) (d : Directory) (s : Store)
    → All IsProper cs
    → Refines d s
    → replies call cs d ≡ replies ideal_call cs s
replies-call [] d s p h = refl
replies-call (c ∷ cs) d s p h =
    let (e, k) = call-Agree c d s p.0 h in
    ap (λ r. r ∷ replies call cs (call c d).1) e
    ∙ ap (λ rs. (ideal_call c s).0 ∷ rs) (replies-call cs (call c d).1 (ideal_call c s).1 p.1 k)
