-- ===== src/Database/Laws.antt =====
-- What follows from the laws of a table for a row that is inserted.
use alma_lead_management_ser.Common.{
  if◌then◌else◌, ◌==◌, ℕ, ◌≡◌, refl, Bool, true, Option, none, some, arith,
}
use alma_lead_management_ser.Database.{Table, IsTable}

-- An update of a row that is there changes the row under its key and no other.
pub get-update_known :
    {Row : Type 0} {id : Row → ℕ} (T : Table id) {clash : Row → Row → Bool} (laws : IsTable T clash)
    (n j : ℕ) (u v : Row) (s : T.Store)
    → T.get n s ≡ some u
    → id v ≡ id u
    → T.get j (T.update v s) ≡ (if j == n then some v else T.get j s)
get-update_known T laws n j u v s h same =
    ground (arith, laws.get-update j v s, laws.id-get n s u h, h)

module _ {Row : Type 0} {id : Row → ℕ} (T : Table id) {clash : Row → Row → Bool}
    (laws : IsTable T clash) (keys : (r q : Row) → id r ≡ id q → clash r q ≡ true) where
  -- An insert that succeeds leaves every older row as it was.
  pub get-insert_old :
      (k : ℕ) (r q : Row) (s s' : T.Store)
      → T.insert r s ≡ some s'
      → T.get k s ≡ some q
      → T.get k s' ≡ some q
  get-insert_old k r q s s' e h = ground (
    arith,
    laws.get-insert k r s s' e,
    laws.insert-unique k r q s s' e h,
    keys r q,
    laws.id-get k s q h,
  )

  pub get-insert_self :
      (r : Row) (s s' : T.Store) → T.insert r s ≡ some s' → T.get (id r) s' ≡ some r
  get-insert_self r s s' e = ground (arith, laws.get-insert (id r) r s s' e)

  -- The key of a row that was inserted was not in use.
  pub get-insert_fresh : (r : Row) (s s' : T.Store) → T.insert r s ≡ some s' → T.get (id r) s ≡ none
  get-insert_fresh r s s' e = go (T.get (id r) s) refl
    where
      go : (o : Option Row) → T.get (id r) s ≡ o → T.get (id r) s ≡ none
      go none h = h
      go (some q) h = absurd (
          ground
            (arith, laws.insert-unique (id r) r q s s' e h, keys r q, laws.id-get (id r) s q h))
