-- ===== src/Database/Memory/Rows.antt =====
-- Lists of rows with distinct keys.
use alma_lead_management_ser.Common.{
  ℕ, ◌≡◌, ◌≢◌, inl, inr, Bool, true, false, Option, none, some, List, [], ◌∷◌, map, ◌==◌,
  if◌then◌else◌, All, select, arith, refl, Bool-cases, ap, sym, not, ◌∙◌,
}
use mathlib.Core.Option
use alma_lead_management_ser.Database.{Has, Distinct}

module _ {Row : Type 0} (id : Row → ℕ) where
  abbrev pub rows_get : ℕ → List Row → Option Row
  rows_get k [] = none
  rows_get k (r ∷ l) = if k == id r then some r else rows_get k l

  abbrev pub replace : Row → List Row → List Row
  replace r [] = []
  replace r (q ∷ l) = (if id q == id r then r else q) ∷ replace r l

  abbrev pub replace_all : (Row → Row) → List Row → List Row
  replace_all f [] = []
  replace_all f (q ∷ l) = (if id (f q) == id q then f q else q) ∷ replace_all f l

  pub map-replace : (r : Row) (l : List Row) → map id (replace r l) ≡ map id l
  map-replace r [] = refl
  map-replace r (q ∷ l) = ground (arith, map-replace r l)

  pub map-replace_all : (f : Row → Row) (l : List Row) → map id (replace_all f l) ≡ map id l
  map-replace_all f [] = refl
  map-replace_all f (q ∷ l) = ground (arith, map-replace_all f l)

  -- A condition on the keys of a list.
  pub All-map_key : (P : ℕ → Type 0) (l : List Row) → All P (map id l) → All (λ r. P (id r)) l
  All-map_key P [] h = tt
  All-map_key P (r ∷ l) h = (h.0, All-map_key P l h.1)

  pub All-map-select :
      (P : ℕ → Type 0) (p : Row → Bool) (l : List Row)
      → All P (map id l)
      → All P (map id (select p l))
  All-map-select P p [] h = tt
  All-map-select P p (r ∷ l) h = elim (Bool-cases (p r)) [
    | inl e ↦ rw e (h.0, All-map-select P p l h.1)
    | inr e ↦ rw e (All-map-select P p l h.1)
  ]

  pub Distinct-select :
      (p : Row → Bool) (l : List Row) → Distinct (map id l) → Distinct (map id (select p l))
  Distinct-select p [] h = tt
  Distinct-select p (r ∷ l) h = elim (Bool-cases (p r)) [
    | inl e ↦ rw e (All-map-select (λ y. id r ≢ y) p l h.0, Distinct-select p l h.1)
    | inr e ↦ rw e (Distinct-select p l h.1)
  ]

  pub id-rows_get : (k : ℕ) (l : List Row) (r : Row) → rows_get k l ≡ some r → id r ≡ k
  id-rows_get k [] r h = cc
  id-rows_get k (q ∷ l) r h = ground (arith, id-rows_get k l r)

  pub Has-rows_get : (k : ℕ) (l : List Row) (r : Row) → rows_get k l ≡ some r → Has r l
  Has-rows_get k [] r h = cc
  Has-rows_get k (q ∷ l) r h = elim (Bool-cases (k == id q)) [
    | inl e ↦ inl (ground arith)
    | inr e ↦ inr (Has-rows_get k l r (rw e at h))
  ]

  -- With distinct keys every row of the list is the one that is found under its key.
  pub rows_get-All : (l : List Row) → Distinct (map id l) → All (λ r. rows_get (id r) l ≡ some r) l
  rows_get-All [] h = tt
  rows_get-All (q ∷ l) h =
      (ground arith, later l (All-map_key (λ y. id q ≢ y) l h.0) (rows_get-All l h.1))
    where
      later :
          (m : List Row)
          → All (λ r. id q ≢ id r) m
          → All (λ r. rows_get (id r) l ≡ some r) m
          → All (λ r. rows_get (id r) (q ∷ l) ≡ some r) m
      later [] ne found = tt
      later (r ∷ m) ne found = (ground arith, later m ne.1 found.1)

  pub rows_get-replace :
      (k : ℕ) (r : Row) (l : List Row)
      → rows_get k (replace r l)
        ≡ (if k == id r then Option.map (λ _. r) (rows_get k l) else rows_get k l)
  rows_get-replace k r [] = ground arith
  rows_get-replace k r (q ∷ l) = ground (arith, rows_get-replace k r l)

  pub rows_get-replace_all :
      (k : ℕ) (f : Row → Row) (l : List Row)
      → ((r : Row) → id (f r) ≡ id r)
      → rows_get k (replace_all f l) ≡ Option.map f (rows_get k l)
  rows_get-replace_all k f [] h = refl
  rows_get-replace_all k f (q ∷ l) h = ground (arith, h q, rows_get-replace_all k f l h)

  pub rows_get-remove :
      (k j : ℕ) (l : List Row)
      → rows_get k (select (λ r. not (id r == j)) l) ≡ (if k == j then none else rows_get k l)
  rows_get-remove k j [] = ground arith
  rows_get-remove k j (q ∷ l) = ground (arith, rows_get-remove k j l)

module _ {Row : Type 0} where
  pub Has-select :
      (p : Row → Bool) (r : Row) (l : List Row) → Has r l → p r ≡ true → Has r (select p l)
  Has-select p r [] m h = absurd m
  Has-select p r (q ∷ l) (inl e) h = rw (ap p (sym e) ∙ h) (inl e)
  Has-select p r (q ∷ l) (inr m) h = elim (Bool-cases (p q)) [
    | inl e ↦ rw e (inr (Has-select p r l m h))
    | inr e ↦ rw e (Has-select p r l m h)
  ]

  -- What holds of all rows holds of those that pass, together with the test.
  pub All-select :
      (P : Row → Type 0) (p : Row → Bool) (l : List Row)
      → All P l
      → All (λ r. P r × (p r ≡ true)) (select p l)
  All-select P p [] h = tt
  All-select P p (r ∷ l) h = elim (Bool-cases (p r)) [
    | inl e ↦ rw e ((h.0, e), All-select P p l h.1)
    | inr e ↦ rw e (All-select P p l h.1)
  ]

  -- Some row of the list forbids the row `r`.
  abbrev pub clashes : (Row → Row → Bool) → Row → List Row → Bool
  clashes clash r [] = false
  clashes clash r (q ∷ l) = if clash r q then true else clashes clash r l

  pub clashes-All :
      (clash : Row → Row → Bool) (r : Row) (l : List Row)
      → clashes clash r l ≡ false
      → All (λ q. clash r q ≡ false) l
  clashes-All clash r [] h = tt
  clashes-All clash r (q ∷ l) h = ground (arith, clashes-All clash r l)
