-- ===== src/Config/Files.antt =====
-- config.py: `from_json` and `from_yaml`. The file system and the two parsers are a parameter.
use metal_native.Base.{◌≡◌, ◌∙◌, ap, refl}
use metal_native.Base.Dict.{Dict}
use metal_native.Base.Exec.{Result, ok, err, attribute_error, Exec, lift, then_run, ◌>>=◌, ◌>>◌}
use metal_native.Base.Text.{Text}
use metal_native.Config.{Config, Given}
use metal_native.Config.Dicts.{IsConfig, to_dict, from_dict, from_dict-to_dict}

-- What a parser returns: a dictionary, or anything else, as None for an empty YAML file.
pub data Parsed (F : Type 0) : Type 0 where
  dictionary : Dict Text (Given F) → Parsed F
  another : Parsed F

pub record Files (F : Type 0) : Type 1 where
  pub World : Type 0
  pub File : Type 0
  pub open_file : Text → Exec World File
  pub close : File → Exec World (Unit {0})
  pub json_load : File → Exec World (Parsed F)
  -- `import yaml`
  pub import_yaml : Exec World (Unit {0})
  pub safe_load : File → Exec World (Parsed F)

-- The end of a `with`: the file is closed however the body ends.
abbrev pub finally : {S A : Type 0} → Exec S A → Exec S (Unit {0}) → Exec S A
finally m c s = let (r, t) = m s in (c >> lift r) t

module _ {F : Type 0} (two : F) (I : Files F) where
  -- `from_dict` of what was read: anything but a dictionary has no `get`.
  unfoldable pub from_parsed : Parsed F → Result (Config F)
  unfolding from_dict
  from_parsed (dictionary d) = from_dict two d
  from_parsed another = err attribute_error

  abbrev pub from_file : (I.File → Exec I.World (Parsed F)) → Text → Exec I.World (Config F)
  from_file load path = do
    parsed ← (I.open_file path >>= λ f. finally (load f) (I.close f))
    lift (from_parsed parsed)

  unfoldable pub from_json : Text → Exec I.World (Config F)
  from_json path = from_file I.json_load path

  -- PyYAML missing is an ImportError again.
  unfoldable pub from_yaml : Text → Exec I.World (Config F)
  from_yaml path = I.import_yaml >> from_file I.safe_load path

  -- The result that is expected, by what the parser returns or raises.
  abbrev pub expected : Result (Parsed F) → Result (Config F)
  expected (ok (dictionary d)) = from_dict two d
  expected (ok another) = err attribute_error
  expected (err e) = err e

  convert_outcome :
      (r : Result (Parsed F)) (u : I.World)
      → then_run (λ p. lift (from_parsed p)) (r, u) ≡ (expected r, u)
  unfolding from_parsed
  convert_outcome (ok (dictionary d)) u = refl
  convert_outcome (ok another) u = refl
  convert_outcome (err e) u = refl

  from_file_lem :
      (load : I.File → Exec I.World (Parsed F)) (path : Text) (f : I.File) (w v u : I.World)
      → I.open_file path w ≡ (ok f, v)
      → I.close f (load f v).1 ≡ (ok tt, u)
      → from_file load path w ≡ (expected (load f v).0, u)
  from_file_lem load path f w v u o c =
      let rest : Result (Parsed F) × I.World → Result (Config F) × I.World =
        then_run (λ p. lift (from_parsed p)) in
      let body : I.File → Exec I.World (Parsed F) = λ g. finally (load g) (I.close g) in
      let end : Unit {0} → Exec I.World (Parsed F) = λ _. lift (load f v).0 in
      ap (λ r. rest (then_run body r)) o
      ∙ (ap (λ r. rest (then_run end r)) c ∙ convert_outcome (load f v).0 u)

  -- How `from_yaml` ends, by how the import of PyYAML does.
  abbrev pub after_import :
      Result (Unit {0}) → I.World → Result (Config F) × I.World → Result (Config F) × I.World
  after_import (ok _) w r = r
  after_import (err e) w r = (err e, w)

  import_outcome :
      (path : Text) (i : Result (Unit {0})) (w : I.World) (r : Result (Config F) × I.World)
      → from_file I.safe_load path w ≡ r
      → then_run (λ _. from_file I.safe_load path) (i, w) ≡ after_import i w r
  import_outcome path (ok _) w r h = h
  import_outcome path (err e) w r h = refl

  -- Where the file opens, and closes after the parser, which may return or raise: `from_json` leaves
  -- the file closed and ends as `from_dict` does on the dictionary that was parsed, by AttributeError
  -- where something else was parsed, as from an empty YAML file, and by what the parser raises; and so
  -- does `from_yaml` where the import of PyYAML returns. Where that raises, `from_yaml` raises the
  -- same and opens no file.
  pub from_files_lem :
      (path : Text) (f : I.File) (i : Result (Unit {0})) (x w v u t : I.World)
      → I.open_file path w ≡ (ok f, v)
      → I.close f (I.json_load f v).1 ≡ (ok tt, u)
      → I.close f (I.safe_load f v).1 ≡ (ok tt, t)
      → I.import_yaml x ≡ (i, w)
      → (from_json path w ≡ (expected (I.json_load f v).0, u))
        × (from_yaml path x ≡ after_import i w (expected (I.safe_load f v).0, t))
  unfolding from_json from_yaml
  from_files_lem path f i x w v u t o c d m = (
    from_file_lem I.json_load path f w v u o c,
    ap (then_run (λ (_ : Unit {0}). from_file I.safe_load path)) m
        ∙ import_outcome path i w (expected (I.safe_load f v).0, t)
            (from_file_lem I.safe_load path f w v t o d),
  )

  -- A configuration whose dictionary was written to the file comes back from it.
  from_json-to_dict :
      (path : Text) (f : I.File) (w v u : I.World) (c : Config F)
      → I.open_file path w ≡ (ok f, v)
      → I.close f (I.json_load f v).1 ≡ (ok tt, u)
      → (I.json_load f v).0 ≡ ok (dictionary (to_dict c))
      → IsConfig two c
      → from_json path w ≡ (ok c, u)
  unfolding from_json from_parsed from_dict
  from_json-to_dict path f w v u c o k l h =
      from_file_lem I.json_load path f w v u o k
      ∙ ap (λ r. (expected r, u)) l
      ∙ ap (λ r. (r, u)) (from_dict-to_dict two c h)
