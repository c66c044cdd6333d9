-- ===== src/Database/Memory/Sorting.antt =====
-- `ORDER BY key DESC` by insertion.
use alma_lead_management_ser.Common.{
  ℕ, ◌≤◌, ◌≡◌, ◌≢◌, sym, map, inl, inr, List, [], ◌∷◌, if◌then◌else◌, length, All, arith, refl, leb,
  Bool-cases, leb→le, suc,
}
use alma_lead_management_ser.Database.{Has, Descending, Distinct}
use alma_lead_management_ser.Database.Memory.Rows.{All-map_key}

All-map_id :
    {Row : Type 0} (id : Row → ℕ) (P : ℕ → Type 0) (l : List Row)
    → All (λ r. P (id r)) l
    → All P (map id l)
All-map_id id P [] h = tt
All-map_id id P (r ∷ l) h = (h.0, All-map_id id P l h.1)

module _ {Row : Type 0} (key : Row → ℕ) where
  abbrev place : Row → List Row → List Row
  place r [] = r ∷ []
  place r (q ∷ l) = if leb (key q) (key r) then r ∷ q ∷ l else q ∷ place r l

  abbrev pub sort : List Row → List Row
  sort [] = []
  sort (r ∷ l) = place r (sort l)

  All-place : (P : Row → Type 0) (r : Row) (l : List Row) → P r → All P l → All P (place r l)
  All-place P r [] p h = (p, tt)
  All-place P r (q ∷ l) p h = elim (Bool-cases (leb (key q) (key r))) [
    | inl e ↦ rw e (p, h)
    | inr e ↦ rw e (h.0, All-place P r l p h.1)
  ]

  pub All-sort : (P : Row → Type 0) (l : List Row) → All P l → All P (sort l)
  All-sort P [] h = tt
  All-sort P (r ∷ l) h = All-place P r (sort l) h.0 (All-sort P l h.1)

  All-le_trans : (m n : ℕ) (l : List Row) → m ≤ n → All (λ r. key r ≤ m) l → All (λ r. key r ≤ n) l
  All-le_trans m n [] le h = tt
  All-le_trans m n (r ∷ l) le h = (omega arith, All-le_trans m n l le h.1)

  Descending-place : (r : Row) (l : List Row) → Descending key l → Descending key (place r l)
  Descending-place r [] h = (tt, tt)
  Descending-place r (q ∷ l) h = elim (Bool-cases (leb (key q) (key r))) [
    | inl e ↦ rw e (
      (leb→le (key q) (key r) e, All-le_trans (key q) (key r) l (leb→le (key q) (key r) e) h.0),
      h,
    )
    | inr e ↦ rw e (All-place (λ y. key y ≤ key q) r l (ground arith) h.0, Descending-place r l h.1)
  ]

  pub sort-Descending : (l : List Row) → Descending key (sort l)
  sort-Descending [] = tt
  sort-Descending (r ∷ l) = Descending-place r (sort l) (sort-Descending l)

  Has-place_self : (r : Row) (l : List Row) → Has r (place r l)
  Has-place_self r [] = inl refl
  Has-place_self r (q ∷ l) = elim (Bool-cases (leb (key q) (key r))) [
    | inl e ↦ rw e (inl refl)
    | inr e ↦ rw e (inr (Has-place_self r l))
  ]

  Has-place_old : (x r : Row) (l : List Row) → Has x l → Has x (place r l)
  Has-place_old x r [] m = absurd m
  Has-place_old x r (q ∷ l) (inl e) = elim (Bool-cases (leb (key q) (key r))) [
    | inl b ↦ rw b (inr (inl e))
    | inr b ↦ rw b (inl e)
  ]
  Has-place_old x r (q ∷ l) (inr m) = elim (Bool-cases (leb (key q) (key r))) [
    | inl b ↦ rw b (inr (inr m))
    | inr b ↦ rw b (inr (Has-place_old x r l m))
  ]

  pub Has-sort : (x : Row) (l : List Row) → Has x l → Has x (sort l)
  Has-sort x [] m = absurd m
  Has-sort x (r ∷ l) (inl e) = rw e (Has-place_self r (sort l))
  Has-sort x (r ∷ l) (inr m) = Has-place_old x r (sort l) (Has-sort x l m)

  length-place : (r : Row) (l : List Row) → length (place r l) ≡ suc (length l)
  length-place r [] = refl
  length-place r (q ∷ l) = ground (arith, length-place r l)

  pub length-sort : (l : List Row) → length (sort l) ≡ length l
  length-sort [] = refl
  length-sort (r ∷ l) = ground (arith, length-place r (sort l), length-sort l)

  -- Sorting keeps keys distinct.
  module _ (id : Row → ℕ) where
    Distinct-place :
        (r : Row) (l : List Row)
        → All (λ q. id r ≢ id q) l
        → Distinct (map id l)
        → Distinct (map id (place r l))
    Distinct-place r [] ne d = (tt, tt)
    Distinct-place r (q ∷ l) ne d = elim (Bool-cases (leb (key q) (key r))) [
      | inl e ↦ rw e (All-map_id id (λ y. id r ≢ y) (q ∷ l) ne, d)
      | inr e ↦ rw e (
        All-map_id id (λ y. id q ≢ y) (place r l)
            (All-place (λ x. id q ≢ id x) r l (λ h. ne.0 (sym h))
              (All-map_key id (λ y. id q ≢ y) l d.0)),
        Distinct-place r l ne.1 d.1,
      )
    ]

    pub sort-Distinct : (l : List Row) → Distinct (map id l) → Distinct (map id (sort l))
    sort-Distinct [] d = tt
    sort-Distinct (r ∷ l) d =
        Distinct-place r (sort l)
          (All-sort (λ q. id r ≢ id q) l (All-map_key id (λ y. id r ≢ y) l d.0))
          (sort-Distinct l d.1)
