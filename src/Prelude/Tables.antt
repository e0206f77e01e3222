-- ===== src/Prelude/Tables.antt =====
-- std::unordered_map with numbers as keys: an association list. The order of the entries is one of
-- those in which the table may be walked.

use bats_protocol_api.Prelude.{
  List, ℕ, ◌≡◌, Option, ◌∷◌, Bool-cases, none, some, [], if◌then◌else◌, arith, ◌==◌, refl, inl,
  subst, inr, sym, ==_iff,
}

module _ {ℓ} {A : Type ℓ} where
  unfoldable pub find : ℕ → List (ℕ × A) → Option A
  find k [] = none
  find k ((j, a) ∷ table) = if k == j then some a else find k table

  -- insert() leaves an entry that is there as it is.
  unfoldable pub insert : ℕ → A → List (ℕ × A) → List (ℕ × A)
  insert k a [] = (k, a) ∷ []
  insert k a ((j, b) ∷ table) = if k == j then (j, b) ∷ table else (j, b) ∷ insert k a table

  -- A change of the value that a key is found with.
  unfoldable pub update : ℕ → A → List (ℕ × A) → List (ℕ × A)
  update k a [] = []
  update k a ((j, b) ∷ table) = if k == j then (j, a) ∷ table else (j, b) ∷ update k a table

  unfoldable pub keys : List (ℕ × A) → List ℕ
  keys [] = []
  keys ((j, a) ∷ table) = j ∷ keys table

  -- Every entry satisfies `P`.
  abbrev pub AllEntries {κ} : (ℕ → A → Type κ) → List (ℕ × A) → Type κ
  AllEntries P [] = Unit
  AllEntries P ((j, a) ∷ table) = P j a × AllEntries P table

module _ {ℓ} {A : Type ℓ} where
  pub find-insert :
      (k i : ℕ) (a : A) (table : List (ℕ × A))
      → find k table ≡ none
      → find i (insert k a table) ≡ (if i == k then some a else find i table)
  unfolding find insert
  find-insert k i a [] h = refl
  find-insert k i a ((j, b) ∷ table) h = ground (arith, find-insert k i a table)

  pub find-update :
      (k i : ℕ) (a b : A) (table : List (ℕ × A))
      → find k table ≡ some b
      → find i (update k a table) ≡ (if i == k then some a else find i table)
  unfolding find update
  find-update k i a b [] h = cc
  find-update k i a b ((j, c) ∷ table) h = ground (arith, find-update k i a b table)

  pub AllEntries-insert {κ} :
      (P : ℕ → A → Type κ) (k : ℕ) (a : A) (table : List (ℕ × A))
      → P k a
      → AllEntries P table
      → AllEntries P (insert k a table)
  unfolding insert
  AllEntries-insert P k a [] h all = (h, tt)
  AllEntries-insert P k a ((j, b) ∷ table) h all = elim (Bool-cases (k == j)) [
    | inl e ↦ rw e all
    | inr e ↦ rw e (all.0, AllEntries-insert P k a table h all.1)
  ]

  pub AllEntries-update {κ} :
      (P : ℕ → A → Type κ) (k : ℕ) (a : A) (table : List (ℕ × A))
      → P k a
      → AllEntries P table
      → AllEntries P (update k a table)
  unfolding update
  AllEntries-update P k a [] h all = tt
  AllEntries-update P k a ((j, b) ∷ table) h all = elim (Bool-cases (k == j)) [
    | inl e ↦ rw e (subst (λ (n : ℕ). P n a) ((==_iff k j).0 e) h, all.1)
    | inr e ↦ rw e (all.0, AllEntries-update P k a table h all.1)
  ]

  pub AllEntries-find {κ} :
      (P : ℕ → A → Type κ) (k : ℕ) (a : A) (table : List (ℕ × A))
      → AllEntries P table
      → find k table ≡ some a
      → P k a
  unfolding find
  AllEntries-find P k a [] all e = absurd (ground arith)
  AllEntries-find P k a ((j, b) ∷ table) all e = elim (Bool-cases (k == j)) [
    | inl q ↦
        subst (λ (c : A). P k c) (ground (arith, q))
          (subst (λ (n : ℕ). P n b) (sym ((==_iff k j).0 q)) all.0)
    | inr q ↦ AllEntries-find P k a table all.1 (ground (arith, q))
  ]
