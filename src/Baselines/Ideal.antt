-- ===== src/Baselines/Ideal.antt =====
-- benchmarks/baseline_manager.py: calls of the manager, and the store that they should behave like.
use metal_native.Base.{false, Option, none, some, List, [], ◌∷◌, if◌then◌else◌, ◌==◌, ◌≡◌}
use metal_native.Base.Exec.{Result, ok, err, file_not_found, from_option}
use metal_native.Base.Text.{Text, text_eq, codes}
use metal_native.Baselines.{Baseline, Directory, save_baseline, load_baseline, delete_baseline}

pub data Call : Type 0 where
  save : Text → Baseline → Call
  delete : Text → Call
  load : Text → Call

pub data Reply : Type 0 where
  of_save : Result Text → Reply
  of_delete : Result (Unit {0}) → Reply
  of_load : Result Baseline → Reply

-- One call on the directory.
unfoldable pub call : Call → Directory → Reply × Directory
unfolding save_baseline load_baseline delete_baseline
call (save l b) d = let (r, e) = save_baseline l b d in (of_save r, e)
call (delete l) d = let (r, e) = delete_baseline l d in (of_delete r, e)
call (load l) d = (of_load (load_baseline l d), d)

-- The baselines under their labels, and the label of the last save.
pub record Store : Type 0 where
  pub under : Text → Option Baseline
  pub last : Option Text

abbrev pub fetch : Option Baseline → Result Baseline
fetch o = from_option o file_not_found

abbrev pub fetch_last : Store → Option Text → Result Baseline
fetch_last s none = err file_not_found
fetch_last s (some l) = fetch (s.under l)

abbrev pub remove : Text → Store → Option Baseline → Reply × Store
remove l s none = (of_delete (err file_not_found), s)
remove l s (some b) =
    (of_delete (ok tt), record s { under = λ k. if l == k then none else s.under k })

-- One call on the store.
unfoldable pub ideal_call : Call → Store → Reply × Store
ideal_call (save l b) s =
    (of_save (ok l), record { under = λ k. if l == k then some b else s.under k; last = some l })
ideal_call (delete l) s = remove l s (s.under l)
ideal_call (load l) s =
    (of_load (if l == codes "latest" then fetch_last s s.last else fetch (s.under l)), s)

-- No save and no deletion under the label "latest".
abbrev pub IsProper : Call → Type 0
IsProper (save l b) = (l == codes "latest") ≡ false
IsProper (delete l) = (l == codes "latest") ≡ false
IsProper (load l) = Unit

-- The replies of a run of calls, by a function for one call.
abbrev pub replies : {S : Type 0} → (Call → S → Reply × S) → List Call → S → List Reply
replies step [] s = []
replies step (c ∷ cs) s = let (r, t) = step c s in r ∷ replies step cs t
