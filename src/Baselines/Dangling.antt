-- ===== src/Baselines/Dangling.antt =====
-- baseline_manager.py: how the link to the latest baseline stops to lead to one.
use metal_native.Base.{ℕ, zero, suc, ◌≡◌, ◌∙◌, refl, ap, false, none, some, ◌==◌, arith, beq_refl}
use metal_native.Base.Dict.{lookup, insert, erase, lookup-insert, lookup-erase}
use metal_native.Base.Exec.{
  Exn, Result, ok, err, file_not_found, os_error, then_run, modify, pure, ◌>>◌,
}
use metal_native.Base.Text.{Text, text_eq, text_beq_iff, codes}
use metal_native.Baselines.{
  Baseline, Content, baseline, file, link, Directory, file_name, latest_link, follow, resolve,
  read_file, path_exists, link_latest, write_at, write_file, content_at, content_of, save_baseline,
  load_baseline, delete_baseline,
}
use metal_native.Baselines.Latest.{
  IsFile, follow-IsFile, follow-none, follow-link, read_file-IsFile, load_baseline-read_file,
  lookup-link_latest, saved, NotLink, save_baseline-NotLink, lookup-saved, own-IsFile,
}

pub load_baseline_missing :
    (label : Text) (r : Result Content) (d : Directory)
    → read_file (file_name label) d ≡ r
    → (e : Exn) × (r ≡ err e)
    → load_baseline label d ≡ err file_not_found
unfolding load_baseline path_exists
load_baseline_missing label r d h (e, k) = rw (h, k)

follow_loop :
    (fuel : ℕ) (name : Text) (d : Directory)
    → lookup name d ≡ some (link name)
    → follow fuel d name ≡ err os_error
follow_loop zero name d h = refl
follow_loop (suc fuel) name d h = rw (h, follow) (follow_loop fuel name d h)

-- A save under the label "latest", where latest.json leads to the file of another baseline, returns.
-- It overwrites that other baseline, and then nothing loads as "latest": latest.json leads to
-- itself.
pub save_baseline_latest :
    (old : Text) (c : Content) (b : Baseline) (d : Directory)
    → lookup latest_link d ≡ some (link (file_name old))
    → (latest_link == file_name old) ≡ false
    → IsFile (file_name old) c d
    → (e : Directory) × (save_baseline (codes "latest") b d ≡ (ok (codes "latest"), e))
      × (load_baseline (codes "latest") e ≡ err file_not_found)
      × (load_baseline old e ≡ ok b)
unfolding save_baseline write_file resolve read_file
save_baseline_latest old c b d l n h =
    let e : Directory = link_latest latest_link (insert (file_name old) (file (baseline b)) d) in
    let self : lookup latest_link e ≡ some (link latest_link) =
      lookup-link_latest latest_link latest_link (insert (file_name old) (file (baseline b)) d) in
    let own : IsFile (file_name old) (baseline b) e = rw (
      lookup-link_latest latest_link (file_name old) (insert (file_name old) (file (baseline b)) d),
      n,
      lookup-insert (file_name old) (file_name old) (file (baseline b)) d,
      beq_refl (file_name old),
    ) in
    (
      e,
      ap
          (λ r.
            then_run (λ u. modify (link_latest latest_link) >> pure (codes "latest"))
              (write_at b d r))
          (follow-link 40 latest_link (file_name old) d l ∙ follow-IsFile 39 (file_name old) c d h),
      load_baseline_missing (codes "latest") (err os_error) e
          (ap (content_at e) (follow_loop 41 latest_link e self)) (os_error, refl),
      load_baseline-read_file old b e (read_file-IsFile (file_name old) (baseline b) e own),
    )

-- After a save under a label whose file is not latest.json and no link, which returns, the deletion
-- of that label returns, and then "latest" loads nothing, whatever other baselines there are: the
-- link stays and leads to the file that is gone.
pub delete_baseline_latest :
    (label : Text) (b : Baseline) (d : Directory)
    → (latest_link == file_name label) ≡ false
    → NotLink (file_name label) d
    → (s e : Directory) × (save_baseline label b d ≡ (ok label, s))
      × (delete_baseline label s ≡ (ok tt, e))
      × (load_baseline label e ≡ err file_not_found)
      × (load_baseline (codes "latest") e ≡ err file_not_found)
unfolding delete_baseline path_exists read_file resolve
delete_baseline_latest label b d n i =
    let f = file_name label in
    let e : Directory = erase f (saved label b d) in
    let gone : lookup f e ≡ none = rw (lookup-erase f f (saved label b d), beq_refl f) in
    let apart : (f == latest_link) ≡ false =
      ground (arith, text_beq_iff f latest_link, text_beq_iff latest_link f) in
    let stays : lookup latest_link e ≡ some (link f) =
      rw (lookup-erase f latest_link (saved label b d), apart)
        (lookup-saved label b d latest_link) in
    let missing : content_at e (ok f) ≡ err file_not_found = ap content_of gone in
    (
      saved label b d,
      e,
      save_baseline-NotLink label b d i,
      rw (read_file-IsFile f (baseline b) (saved label b d) (own-IsFile label b d n)),
      load_baseline_missing label (err file_not_found) e
          (ap (content_at e) (follow-none 40 f e gone) ∙ missing) (file_not_found, refl),
      load_baseline_missing (codes "latest") (err file_not_found) e
          (ap (content_at e) (follow-link 40 latest_link f e stays ∙ follow-none 39 f e gone)
            ∙ missing)
          (file_not_found, refl),
    )
