-- ===== src/Store/Table.antt =====
-- A database table with a primary key: `lookup` is a SELECT by the key, and `upsert` an
-- INSERT … ON CONFLICT (key) DO UPDATE, whose new row may depend on the row that is there.
use is_ntust_down.Prelude.{
  ◌≡◌, refl, Option, none, some, List, [], ◌∷◌, arith, KeyEq, if◌then◌else◌, Bool, filter_by, false,
  Bool-cases, ap, ◌∙◌, inl, inr,
}

abbrev pub Table {ℓ κ} : Type ℓ → Type κ → Type (ℓ ⊔ κ)
Table K V = List (K × V)

module _ {ℓ κ} {K : Type ℓ} {V : Type κ} ⦃e : KeyEq K⦄ where
  unfoldable pub lookup : K → Table K V → Option V
  lookup k [] = none
  lookup k ((j, v) ∷ t) = if e.same j k then some v else lookup k t

  unfoldable pub upsert : K → (Option V → V) → Table K V → Table K V
  upsert k f [] = (k, f none) ∷ []
  upsert k f ((j, v) ∷ t) = if e.same j k then (j, f (some v)) ∷ t else (j, v) ∷ upsert k f t

  pub lookup-upsert :
      (j k : K) (f : Option V → V) (t : Table K V)
      → lookup j (upsert k f t) ≡ (if e.same k j then some (f (lookup k t)) else lookup j t)
  unfolding lookup upsert
  lookup-upsert j k f [] = refl
  lookup-upsert j k f ((i, v) ∷ t) =
      ground (arith, e.same_iff i k, e.same_iff i j, e.same_iff k j, lookup-upsert j k f t)

module _ {ℓ κ} {K : Type ℓ} {V : Type κ} ⦃e : KeyEq K⦄ where
  -- every key has one row
  abbrev pub IsUnique : Table K V → Type (ℓ ⊔ κ)
  IsUnique [] = Unit
  IsUnique ((k, v) ∷ t) = (lookup k t ≡ none) × IsUnique t

  not_added :
      (j k : K) (f : Option V → V) (t : Table K V)
      → e.same j k ≡ false
      → lookup j t ≡ none
      → lookup j (upsert k f t) ≡ none
  not_added j k f t h g = ground (arith, lookup-upsert j k f t, e.same_iff k j, e.same_iff j k)

  pub upsert-IsUnique :
      (k : K) (f : Option V → V) (t : Table K V) → IsUnique t → IsUnique (upsert k f t)
  unfolding upsert lookup
  upsert-IsUnique k f [] h = (refl, tt)
  upsert-IsUnique k f ((j, v) ∷ t) h = elim (Bool-cases (e.same j k)) [
    | inl same ↦ rw same h
    | inr other ↦ rw other (not_added j k f t other h.0, upsert-IsUnique k f t h.1)
  ]

  abbrev pub kept : (K × V → Bool) → K → Option V → Option V
  kept p k none = none
  kept p k (some v) = if p (k, v) then some v else none

  -- DELETE FROM … WHERE
  pub lookup-filter_by :
      (p : K × V → Bool) (k : K) (t : Table K V)
      → IsUnique t
      → lookup k (filter_by p t) ≡ kept p k (lookup k t)
  unfolding lookup
  lookup-filter_by p k [] h = refl
  lookup-filter_by p k ((j, v) ∷ t) h =
      ground (arith, lookup-filter_by p k t h.1, e.same_iff j k, ap (λ (i : K). lookup i t))

module _ {ℓ κ} {K : Type ℓ} {V : Type κ} ⦃e : KeyEq K⦄ where
  pub filter_by-IsUnique :
      (p : K × V → Bool) (t : Table K V) → IsUnique t → IsUnique (filter_by p t)
  filter_by-IsUnique p [] h = h
  filter_by-IsUnique p ((j, v) ∷ t) h = elim (Bool-cases (p (j, v))) [
    | inl keep ↦
        rw keep (lookup-filter_by p j t h.1 ∙ ap (kept p j) h.0, filter_by-IsUnique p t h.1)
    | inr gone ↦ rw gone (filter_by-IsUnique p t h.1)
  ]
