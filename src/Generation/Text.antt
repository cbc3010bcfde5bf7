-- ===== src/Generation/Text.antt =====
-- examples/llm_generation.py: the vocabulary, and tokens as text.
use metal_native.Base.{ℕ, Option, none, some, List, [], ◌∷◌, ◌++◌, map, nat_eq}
use metal_native.Base.Dict.{Dict, lookup}
use metal_native.Base.Text.{Text, codes}

-- `create_simple_vocab`
unfoldable pub create_simple_vocab : Dict ℕ Text
create_simple_vocab =
    (0, codes "<EOS>")
    ∷ (1, codes "the")
    ∷ (2, codes "cat")
    ∷ (3, codes "sat")
    ∷ (4, codes "on")
    ∷ (5, codes "mat")
    ∷ (6, codes "dog")
    ∷ (7, codes "ran")
    ∷ (8, codes "in")
    ∷ (9, codes "park")
    ∷ (10, codes "quick")
    ∷ (11, codes "brown")
    ∷ (12, codes "fox")
    ∷ (13, codes "jumped")
    ∷ (14, codes "over")
    ∷ (15, codes "lazy")
    ∷ []

module _ (show : ℕ → Text) where
  -- `vocab.get(idx, f"<UNK:{idx}>")`; how a number is written is a parameter.
  abbrev pub word_or_unknown : ℕ → Option Text → Text
  word_or_unknown i none = codes "<UNK:" ++ show i ++ codes ">"
  word_or_unknown i (some word) = word

  abbrev pub word : Dict ℕ Text → ℕ → Text
  word vocab i = word_or_unknown i (lookup i vocab)

  -- `" ".join(tokens)`
  abbrev pub join : List Text → Text
  join [] = []
  join (t ∷ []) = t
  join (t ∷ (u ∷ ts)) = t ++ codes " " ++ join (u ∷ ts)

  unfoldable pub ids_to_text : List ℕ → Dict ℕ Text → Text
  ids_to_text ids vocab = join (map (word vocab) ids)
