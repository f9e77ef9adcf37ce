-- ===== src/Store/Migrate/Settled.antt =====
-- Statements of internal/store/migrations/*.sql that have been applied have nothing to do again.
use is_ntust_down.Prelude.{
  ◌≡◌, refl, sym, ap, ◌∙◌, Bool, true, Option, none, some, List, [], ◌∷◌, String, arith, Bool-cases,
  Option-cases, inl, inr, KeyEq, text_key, codes_key, eq_iff,
}
use is_ntust_down.Store.Table.{Table, lookup, upsert, lookup-upsert}
use is_ntust_down.Store.Migrate.{
  Relation, table_of, index_on, Statement, Catalogue, indexable, permitted, or_else, apply,
  apply_all,
}

-- what is there is there afterwards, as it was
abbrev pub Extends : Catalogue → Catalogue → Type 0
Extends a b = (name : String) (r : Relation) → lookup name a ≡ some r → lookup name b ≡ some r

-- a statement that has nothing to do
abbrev pub Settled : Statement → Catalogue → Type 0
Settled st cat =
    (permitted st.relation cat ≡ true) × (r : Relation) × (lookup st.creates cat ≡ some r)

abbrev pub AllSettled : List Statement → Catalogue → Type 0
AllSettled [] cat = Unit
AllSettled (st ∷ sts) cat = Settled st cat × AllSettled sts cat

module _ {ℓ κ} {K : Type ℓ} {V : Type κ} ⦃e : KeyEq K⦄ where
  upsert-present :
      (k : K) (f : Option V → V) (v : V) (t : Table K V)
      → lookup k t ≡ some v
      → f (some v) ≡ v
      → upsert k f t ≡ t
  unfolding lookup upsert
  upsert-present k f v [] h g = ground (arith, h)
  upsert-present k f v ((j, w) ∷ t) h g = ground (arith, h, g, upsert-present k f v t)

-- a present relation takes an index that it took before
indexable-some :
    (columns : List (String × Bool)) (found : Option Relation)
    → indexable columns found ≡ true
    → (r : Relation) × (found ≡ some r)
indexable-some columns none h = ground (arith, h)
indexable-some columns (some r) h = (r, refl)

permitted-Extends :
    (r : Relation) (a b : Catalogue) → Extends a b → permitted r a ≡ true → permitted r b ≡ true
permitted-Extends (table_of columns key) a b x h = refl
permitted-Extends (index_on table columns) a b x h =
    let (r, e) = indexable-some columns (lookup table a) h in
    ap (indexable columns) (x table r e ∙ sym e) ∙ h

or_else-kept :
    (new : Relation) (found : Option Relation) (r : Relation)
    → found ≡ some r
    → or_else new found ≡ r
or_else-kept new none r h = ground (arith, h)
or_else-kept new (some old) r h = ground (arith, h)

upsert-Extends :
    (st : Statement) (a : Catalogue) → Extends a (upsert st.creates (or_else st.relation) a)
upsert-Extends st a name r h =
    lookup-upsert name st.creates (or_else st.relation) a
    ∙ ground (arith, h, eq_iff st.creates name, or_else-kept st.relation (lookup st.creates a) r)

upsert-there :
    (st : Statement) (a : Catalogue)
    → (r : Relation) × (lookup st.creates (upsert st.creates (or_else st.relation) a) ≡ some r)
upsert-there st a = (
  or_else st.relation (lookup st.creates a),
  lookup-upsert st.creates st.creates (or_else st.relation) a
      ∙ ground (arith, eq_iff st.creates st.creates),
)

Settled-Extends : (st : Statement) (a b : Catalogue) → Extends a b → Settled st a → Settled st b
Settled-Extends st a b x (p, r, h) = (permitted-Extends st.relation a b x p, r, x st.creates r h)

pub AllSettled-Extends :
    (sts : List Statement) (a b : Catalogue) → Extends a b → AllSettled sts a → AllSettled sts b
AllSettled-Extends [] a b x s = tt
AllSettled-Extends (st ∷ sts) a b x (s, ss) =
    (Settled-Extends st a b x s, AllSettled-Extends sts a b x ss)

-- An applied statement keeps what there is, and is settled.
apply-Settled :
    (st : Statement) (a b : Catalogue) → apply st a ≡ some b → Extends a b × Settled st b
apply-Settled st a b h = elim (Bool-cases (permitted st.relation a)) [
  | inl p ↦
      let made = upsert st.creates (or_else st.relation) a in
      let kept = upsert-Extends st a in
      rw (sym (made_eq p)) (
        kept,
        (permitted-Extends st.relation a made kept p, (upsert-there st a).0, (upsert-there st a).1),
      )
  | inr p ↦ absurd (ground (arith, h, p))
]
  where
    made_eq : permitted st.relation a ≡ true → upsert st.creates (or_else st.relation) a ≡ b
    made_eq p = ground (arith, h, p)

apply-again : (st : Statement) (a : Catalogue) → Settled st a → apply st a ≡ some a
apply-again st a (p, r, h) =
    rw p (ap some (upsert-present st.creates (or_else st.relation) r a h refl))

pub apply_all-again :
    (sts : List Statement) (a : Catalogue) → AllSettled sts a → apply_all sts a ≡ some a
unfolding apply_all
apply_all-again [] a s = refl
apply_all-again (st ∷ sts) a (s, ss) = rw (apply_all, apply-again st a s) (apply_all-again sts a ss)

apply_all-none :
    (st : Statement) (sts : List Statement) (a : Catalogue)
    → apply st a ≡ none
    → apply_all (st ∷ sts) a ≡ none
unfolding apply_all
apply_all-none st sts a h = rw (apply_all, h) refl

apply_all-some :
    (st : Statement) (sts : List Statement) (a b : Catalogue)
    → apply st a ≡ some b
    → apply_all (st ∷ sts) a ≡ apply_all sts b
unfolding apply_all
apply_all-some st sts a b h = rw (apply_all, h) refl

-- Applied statements keep what there is, and are settled.
pub apply_all-Settled :
    (sts : List Statement) (a b : Catalogue)
    → apply_all sts a ≡ some b
    → Extends a b × AllSettled sts b
unfolding apply_all
apply_all-Settled [] a b h = (λ name r k. rw (sym same) k, tt)
  where
    same : a ≡ b
    same = ground (arith, h)
apply_all-Settled (st ∷ sts) a b h = elim (Option-cases (apply st a)) [
  | inl e ↦ absurd (ground (arith, h, apply_all-none st sts a e))
  | inr (c, e) ↦
      let (x, s) = apply-Settled st a c e in
      let (y, ss) = apply_all-Settled sts c b (sym (apply_all-some st sts a c e) ∙ h) in
      (λ name r k. y name r (x name r k), (Settled-Extends st c b y s, ss))
]
