-- ===== src/Database/Paging.antt =====
-- A client that walks through the pages of a listing.
use alma_lead_management_ser.Common.{
  ℕ, zero, suc, ◌+◌, ◌*◌, ◌≤◌, ◌≡◌, ap, ◌∙◌, Bool, true, List, [], ◌∷◌, ◌++◌, map, length, take,
  drop, take-drop-append, take-of-short, All, arith, some, ap₂, sym, subst,
}
use native.Mathlib.Nat.{zero-add, suc-add}
use alma_lead_management_ser.Database.{Has, Distinct, Descending, NoTies, Table, IsTable}

-- The pages at `offset`, `offset + limit`, … one after the other, `rounds` of them.
abbrev pub walk {ℓ} : {A : Type ℓ} → (ℕ → List A) → (rounds limit offset : ℕ) → List A
walk page zero limit offset = []
walk page (suc rounds) limit offset = page offset ++ walk page rounds limit (offset + limit)

drop-drop : {A : Type 0} (m n : ℕ) (xs : List A) → drop n (drop m xs) ≡ drop (m + n) xs
drop-drop zero n xs = rw zero-add
drop-drop (suc m) zero [] = rw suc-add
drop-drop (suc m) (suc n) [] = rw suc-add
drop-drop (suc m) n (x ∷ xs) = rw suc-add (drop-drop m n xs)

module _ {A : Type 0} (page : ℕ → List A) (limit : ℕ) (l : List A) where
  abbrev pub Cuts : Type 0
  Cuts = (offset : ℕ) → page offset ≡ take limit (drop offset l)

  pub walk-eq-take :
      Cuts
      → (rounds offset : ℕ) → walk page rounds limit offset ≡ take (rounds * limit) (drop offset l)
  walk-eq-take cuts zero offset = ap (λ n. take n (drop offset l)) (omega_zero limit)
    where
      omega_zero : (n : ℕ) → 0 ≡ 0 * n
      omega_zero n = omega arith
  walk-eq-take cuts (suc rounds) offset =
      ap₂ (λ xs ys. xs ++ ys) (cuts offset) (walk-eq-take cuts rounds (offset + limit))
      ∙ ap (λ ys. take limit (drop offset l) ++ take (rounds * limit) ys)
          (sym (drop-drop offset limit l))
      ∙ take-drop-append limit (rounds * limit) (drop offset l)
      ∙ ap (λ n. take n (drop offset l)) (omega_suc rounds limit)
    where
      omega_suc : (r n : ℕ) → n + r * n ≡ suc r * n
      omega_suc r n = omega arith

-- What a listing of the rows that pass `p`, by falling `key`, has to be.
pub record IsListing {Row : Type 0} {id : Row → ℕ} (T : Table id) (p : Row → Bool) (key : Row → ℕ)
    (s : T.Store) (l : List Row) : Type 0 where
  pub newest_first : Descending key l
  pub stored : All (λ r. (T.get (id r) s ≡ some r) × (p r ≡ true)) l
  pub complete : (k : ℕ) (r : Row) → T.get k s ≡ some r → p r ≡ true → Has r l
  pub once : Distinct (map id l)

module _ {Row : Type 0} {id : Row → ℕ} (T : Table id) {clash : Row → Row → Bool}
    (laws : IsTable T clash) (p : Row → Bool) (key : Row → ℕ) (s : T.Store) where
  pub order-IsListing : IsListing T p key s (T.order p key s)
  order-IsListing = record {
    newest_first = laws.order-Descending p key s;
    stored = laws.order-All p key s;
    complete = λ k r h t. laws.Has-order p key k s r h t;
    once = laws.order-Distinct p key s;
  }

  -- Without ties, pages that are asked for until the count is reached are the whole listing.
  pub walk-IsListing :
      (limit rounds : ℕ)
      → T.count p s ≤ rounds * limit
      → NoTies T p key s
      → let l = walk (λ o. T.page p key limit o s) rounds limit 0 in
        IsListing T p key s l × (length l ≡ T.count p s)
  walk-IsListing limit rounds h total =
      rw all_pages (order-IsListing, sym (laws.count-eq-length p key s))
    where
      all_pages : walk (λ o. T.page p key limit o s) rounds limit 0 ≡ T.order p key s
      all_pages =
          walk-eq-take (λ o. T.page p key limit o s) limit (T.order p key s)
            (λ o. laws.page-eq-take-drop p key limit o s total) rounds 0
          ∙ take-of-short (rounds * limit) (T.order p key s)
              (subst (λ n. n ≤ rounds * limit) (laws.count-eq-length p key s) h)

  -- A page holds no more rows than asked for, and all of them pass.
  pub page_bounds :
      (limit offset : ℕ)
      → (length (T.page p key limit offset s) ≤ limit)
        × All (λ r. (T.get (id r) s ≡ some r) × (p r ≡ true)) (T.page p key limit offset s)
  page_bounds limit offset =
      (laws.page_length p key limit offset s, laws.page-All p key limit offset s)
