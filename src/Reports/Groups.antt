-- ===== src/Reports/Groups.antt =====
-- report_generator.py: the loop that sorts the comparisons into categories.
use metal_native.Base.{
  ◌≡◌, ◌∙◌, refl, sym, ap, inl, inr, Bool, false, Bool-cases, Option-cases, none, some, List, [],
  ◌∷◌, ◌++◌, append-nil, append_assoc, if◌then◌else◌, keep_if, ◌==◌, All, arith, beq_refl,
}
use metal_native.Base.Dict.{Dict, lookup, has_key, insert, lookup-insert, NodupKeys}
use metal_native.Base.Text.{Text, text_eq}
use metal_native.Regression.{Floats, Comparison}
use metal_native.Reports.{Categories, category_of, or_empty, add_to_category, group_from}

has_key-insert :
    {A : Type 0} (j k : Text) (v : A) (d : Dict Text A)
    → has_key j d ≡ false
    → (k == j) ≡ false
    → has_key j (insert k v d) ≡ false
has_key-insert j k v d h e = let l = lookup-insert k j v d in rw (has_key, l, e) h

NodupKeys-insert :
    {A : Type 0} (k : Text) (v : A) (d : Dict Text A) → NodupKeys d → NodupKeys (insert k v d)
NodupKeys-insert k v [] n = (refl, tt)
NodupKeys-insert k v ((j, w) ∷ d) n = elim (Bool-cases (j == k)) [
  | inl e ↦ rw e n
  | inr e ↦ rw e (
    has_key-insert j k v d n.0 (ground (arith, text_eq.decides j k, text_eq.decides k j)),
    NodupKeys-insert k v d n.1,
  )
]

module _ {A : Type 0} (k : Text) (v : A) (d : Dict Text A) (fresh : has_key k d ≡ false) where
  not_first : (j : Text) (w : A) → lookup j d ≡ some w → lookup j ((k, v) ∷ d) ≡ some w
  not_first j w h = elim (Bool-cases (k == j)) [
    | inl e ↦
        let found : lookup k d ≡ some w = ap (λ x. lookup x d) ((text_eq.decides k j).0 e) ∙ h in
        absurd (let b = rw (has_key, found) at fresh in cc)
    | inr e ↦ rw e h
  ]

  later_found :
      (items : Dict Text A)
      → All (λ e. lookup e.0 d ≡ some e.1) items
      → All (λ e. lookup e.0 ((k, v) ∷ d) ≡ some e.1) items
  later_found [] a = tt
  later_found ((j, w) ∷ items) a = (not_first j w a.0, later_found items a.1)

-- Each entry is what a lookup of its key gives.
pub entries_found :
    {A : Type 0} (d : Dict Text A) → NodupKeys d → All (λ e. lookup e.0 d ≡ some e.1) d
entries_found [] n = tt
entries_found ((k, v) ∷ d) n = (rw (beq_refl k) refl, later_found k v d n.0 d (entries_found d n.1))

module _ (F : Floats) where
  abbrev pub in_category : Text → Comparison F → Bool
  in_category k c = category_of F c == k

  -- The category is there before the comparison is added to it.
  abbrev with_category : Text → Categories F → Categories F
  with_category k d = if has_key k d then d else insert k [] d

  lookup-with_category :
      (j k : Text) (d : Categories F)
      → or_empty F (lookup k (with_category j d)) ≡ or_empty F (lookup k d)
  lookup-with_category j k d = elim (Option-cases (lookup j d)) [
    | inl e ↦
        let l = lookup-insert j k [] d in
        elim (Bool-cases (j == k)) [
          | inl same ↦
              let none_there : lookup k d ≡ none =
                ap (λ x. lookup x d) (sym ((text_eq.decides j k).0 same)) ∙ e in
              rw (has_key, e, l, same, none_there) refl
          | inr differ ↦ rw (has_key, e, l, differ) refl
        ]
    | inr (v, e) ↦ rw (has_key, e) refl
  ]

  lookup-add :
      (k : Text) (c : Comparison F) (d : Categories F)
      → or_empty F (lookup k (add_to_category F c d))
        ≡ or_empty F (lookup k d) ++ (if in_category k c then c ∷ [] else [])
  lookup-add k c d =
      let j = category_of F c in
      let v = or_empty F (lookup j (with_category j d)) ++ c ∷ [] in
      let l = lookup-insert j k v (with_category j d) in
      let same_before = lookup-with_category j k d in
      elim (Bool-cases (j == k)) [
        | inl same ↦
            let jk : j ≡ k = (text_eq.decides j k).0 same in
            ap (or_empty F) (l ∙ ap (λ b. if b then some v else lookup k (with_category j d)) same)
            ∙ ap (λ x. x ++ c ∷ [])
                (ap (λ i. or_empty F (lookup i (with_category j d))) jk ∙ same_before)
            ∙ sym (ap (λ b. or_empty F (lookup k d) ++ (if b then c ∷ [] else [])) same)
        | inr differ ↦
            ap (or_empty F)
              (l ∙ ap (λ b. if b then some v else lookup k (with_category j d)) differ)
            ∙ same_before
            ∙ sym (append-nil (or_empty F (lookup k d)))
            ∙ sym (ap (λ b. or_empty F (lookup k d) ++ (if b then c ∷ [] else [])) differ)
      ]

  keep_if-cons :
      (k : Text) (c : Comparison F) (cs xs : List (Comparison F))
      → (xs ++ (if in_category k c then c ∷ [] else [])) ++ keep_if (in_category k) cs
        ≡ xs ++ keep_if (in_category k) (c ∷ cs)
  keep_if-cons k c cs xs = elim (Bool-cases (in_category k c)) [
    | inl e ↦ rw e (append_assoc xs (c ∷ []) (keep_if (in_category k) cs))
    | inr e ↦ rw e (ap (λ l. l ++ keep_if (in_category k) cs) (append-nil xs))
  ]

  lookup-group_from :
      (k : Text) (cs : List (Comparison F)) (d : Categories F)
      → or_empty F (lookup k (group_from F cs d))
        ≡ or_empty F (lookup k d) ++ keep_if (in_category k) cs
  unfolding group_from
  lookup-group_from k [] d = sym (append-nil (or_empty F (lookup k d)))
  lookup-group_from k (c ∷ cs) d =
      lookup-group_from k cs (add_to_category F c d)
      ∙ ap (λ l. l ++ keep_if (in_category k) cs) (lookup-add k c d)
      ∙ keep_if-cons k c cs (or_empty F (lookup k d))

  add-NodupKeys :
      (c : Comparison F) (d : Categories F) → NodupKeys d → NodupKeys (add_to_category F c d)
  add-NodupKeys c d n =
      let j = category_of F c in
      NodupKeys-insert j (or_empty F (lookup j (with_category j d)) ++ c ∷ []) (with_category j d)
        (elim (Bool-cases (has_key j d)) [
          | inl e ↦ rw e n
          | inr e ↦ rw e (NodupKeys-insert j [] d n)
        ])

  pub group_from-NodupKeys :
      (cs : List (Comparison F)) (d : Categories F) → NodupKeys d → NodupKeys (group_from F cs d)
  unfolding group_from
  group_from-NodupKeys [] d n = n
  group_from-NodupKeys (c ∷ cs) d n =
      group_from-NodupKeys cs (add_to_category F c d) (add-NodupKeys c d n)

  -- The entry holds the comparisons of its category, in their order.
  abbrev pub HoldsCategory : List (Comparison F) → Text × List (Comparison F) → Type 0
  HoldsCategory cs (k, comps) = comps ≡ keep_if (in_category k) cs

  entries-Holds :
      (cs : List (Comparison F)) (items : Categories F)
      → All (λ e. lookup e.0 (group_from F cs []) ≡ some e.1) items
      → All (HoldsCategory cs) items
  entries-Holds cs [] a = tt
  entries-Holds cs ((k, v) ∷ items) a =
      (sym (ap (or_empty F) a.0) ∙ lookup-group_from k cs [], entries-Holds cs items a.1)

  pub group_from-HoldsCategory :
      (cs : List (Comparison F)) → All (HoldsCategory cs) (group_from F cs [])
  group_from-HoldsCategory cs =
      entries-Holds cs (group_from F cs [])
        (entries_found (group_from F cs []) (group_from-NodupKeys cs [] tt))
