-- ===== src/Baselines/Latest.antt =====
-- baseline_manager.py: what is loaded after a save or a deletion.
use metal_native.Base.{
  ℕ, suc, ◌≡◌, ◌⊎◌, ◌∙◌, inl, inr, ap, false, none, some, if◌then◌else◌, ◌==◌, arith, beq_refl,
}
use metal_native.Base.Dict.{lookup, insert, lookup-insert, lookup-erase}
use metal_native.Base.Exec.{ok, then_run, modify, pure, ◌>>◌}
use metal_native.Base.Text.{Text, text_eq, codes}
use metal_native.Baselines.{
  Baseline, Content, baseline, file, link, Directory, file_name, latest_link, follow, resolve,
  read_file, path_exists, unlink_latest, link_latest, write_file, write_at, content_at, content_of,
  save_baseline, load_baseline,
}

pub lookup-link_latest :
    (name n : Text) (d : Directory)
    → lookup n (link_latest name d) ≡ (if latest_link == n then some (link name) else lookup n d)
lookup-link_latest name n d =
    ground (
      arith,
      lookup-insert latest_link n (link name) (unlink_latest d),
      lookup-erase latest_link n d,
    )

-- The name stands for a file.
abbrev pub IsFile : Text → Content → Directory → Type 0
IsFile name c d = lookup name d ≡ some (file c)

pub follow-IsFile :
    (fuel : ℕ) (name : Text) (c : Content) (d : Directory)
    → IsFile name c d
    → follow (suc fuel) d name ≡ ok name
follow-IsFile fuel name c d h = rw (h, follow)

pub follow-none :
    (fuel : ℕ) (name : Text) (d : Directory)
    → lookup name d ≡ none
    → follow (suc fuel) d name ≡ ok name
follow-none fuel name d h = rw (h, follow)

pub follow-link :
    (fuel : ℕ) (name target : Text) (d : Directory)
    → lookup name d ≡ some (link target)
    → follow (suc fuel) d name ≡ follow fuel d target
follow-link fuel name target d h = rw (h, follow)

read_file-resolve :
    (name target : Text) (c : Content) (d : Directory)
    → resolve d name ≡ ok target
    → IsFile target c d
    → read_file name d ≡ ok c
unfolding read_file
read_file-resolve name target c d h k = ap (content_at d) h ∙ ap content_of k

pub read_file-IsFile :
    (name : Text) (c : Content) (d : Directory) → IsFile name c d → read_file name d ≡ ok c
unfolding resolve
read_file-IsFile name c d h = read_file-resolve name name c d (follow-IsFile 40 name c d h) h

pub read_file-link :
    (name target : Text) (c : Content) (d : Directory)
    → lookup name d ≡ some (link target)
    → IsFile target c d
    → read_file name d ≡ ok c
unfolding resolve
read_file-link name target c d h k =
    read_file-resolve name target c d
      (follow-link 40 name target d h ∙ follow-IsFile 39 target c d k) k

pub load_baseline-read_file :
    (label : Text) (b : Baseline) (d : Directory)
    → read_file (file_name label) d ≡ ok (baseline b)
    → load_baseline label d ≡ ok b
unfolding load_baseline path_exists
load_baseline-read_file label b d h = rw h

-- The name is no link: a file, or missing.
abbrev pub NotLink : Text → Directory → Type 0
NotLink name d = (lookup name d ≡ none) ⊎ ((c : Content) × IsFile name c d)

resolve-NotLink : (name : Text) (d : Directory) → NotLink name d → resolve d name ≡ ok name
unfolding resolve
resolve-NotLink name d (inl h) = follow-none 40 name d h
resolve-NotLink name d (inr (c, h)) = follow-IsFile 40 name c d h

-- The directory after a save that writes under its own name.
abbrev pub saved : Text → Baseline → Directory → Directory
saved label b d = link_latest (file_name label) (insert (file_name label) (file (baseline b)) d)

pub save_baseline-NotLink :
    (label : Text) (b : Baseline) (d : Directory)
    → NotLink (file_name label) d
    → save_baseline label b d ≡ (ok label, saved label b d)
unfolding save_baseline write_file
save_baseline-NotLink label b d h =
    ap (λ r. then_run (λ u. modify (link_latest (file_name label)) >> pure label) (write_at b d r))
      (resolve-NotLink (file_name label) d h)

pub lookup-saved :
    (label : Text) (b : Baseline) (d : Directory) (n : Text)
    → lookup n (saved label b d) ≡ (
        if latest_link == n
        then some (link (file_name label))
        else if file_name label == n
        then some (file (baseline b))
        else lookup n d)
lookup-saved label b d n = ground (
  arith,
  lookup-link_latest (file_name label) n (insert (file_name label) (file (baseline b)) d),
  lookup-insert (file_name label) n (file (baseline b)) d,
)

pub own-IsFile :
    (label : Text) (b : Baseline) (d : Directory)
    → (latest_link == file_name label) ≡ false
    → IsFile (file_name label) (baseline b) (saved label b d)
own-IsFile label b d n =
    rw (lookup-saved label b d (file_name label), n, beq_refl (file_name label))

-- A save under a label whose file is not latest.json and no link returns the label. Then the label
-- and "latest" load the saved baseline, and every other label whose file was there, and no link,
-- loads what it held before.
pub load_baseline-save_baseline :
    (label : Text) (b : Baseline) (d : Directory)
    → (latest_link == file_name label) ≡ false
    → NotLink (file_name label) d
    → (e : Directory) × (save_baseline label b d ≡ (ok label, e))
      × (load_baseline label e ≡ ok b)
      × (load_baseline (codes "latest") e ≡ ok b)
      × ((other : Text) (c : Baseline)
          → (latest_link == file_name other) ≡ false
          → (file_name label == file_name other) ≡ false
          → IsFile (file_name other) (baseline c) d
          → load_baseline other e ≡ ok c)
load_baseline-save_baseline label b d n h = (
  saved label b d,
  save_baseline-NotLink label b d h,
  load_baseline-read_file label b (saved label b d)
      (read_file-IsFile (file_name label) (baseline b) (saved label b d) (own-IsFile label b d n)),
  load_baseline-read_file (codes "latest") b (saved label b d) (
      read_file-link latest_link (file_name label) (baseline b) (saved label b d)
        (lookup-saved label b d latest_link) (own-IsFile label b d n)),
  λ other c m o k. load_baseline-read_file other c (saved label b d) (
      read_file-IsFile (file_name other) (baseline c) (saved label b d)
        (rw (lookup-saved label b d (file_name other), m, o) k)),
)
