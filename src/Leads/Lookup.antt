-- ===== src/Leads/Lookup.antt =====
-- A lead is found by its key.
use alma_lead_management_ser.Common.{
  ℕ, ◌≡◌, sym, ap, ◌∙◌, inl, inr, true, some, List, [], ◌∷◌, map, All, ◌==◌, ==_iff, Option-cases,
}
use alma_lead_management_ser.Results.{Result}
use alma_lead_management_ser.Models.{Lead}
use alma_lead_management_ser.Database.{Has, Distinct}
use alma_lead_management_ser.Engine.{Engine, IsEngine, Db, lead_key}
use alma_lead_management_ser.Auth.{scalar_one_or_none}
use alma_lead_management_ser.Leads.{get_lead, found_lead, selected_lead}

module _ (E : Engine) (laws : IsEngine E) (k : ℕ) (db : Db E) where
  abbrev Keyed : Lead → Type 0
  Keyed l = (E.leads.get l.id db.leads ≡ some l) × ((l.id == k) ≡ true)

  -- The query by the primary key has at most one row, the one that stands under the key.
  selected :
      (rows : List Lead)
      → All Keyed rows
      → Distinct (map lead_key rows)
      → ((l : Lead) → E.leads.get k db.leads ≡ some l → Has l rows)
      → selected_lead E (scalar_one_or_none rows) ≡ found_lead E (E.leads.get k db.leads)
  selected [] h d listed = elim (Option-cases (E.leads.get k db.leads)) [
    | inl e ↦ rw e
    | inr (l, e) ↦ absurd (listed l e)
  ]
  selected (x ∷ []) ((g, e), _) d listed =
      ap (found_lead E) (sym g ∙ ap (λ (j : ℕ). E.leads.get j db.leads) ((==_iff x.id k).0 e))
  selected (x ∷ y ∷ zs) ((gx, ex), ((gy, ey), _)) ((ne, _), _) listed =
      absurd (ne ((==_iff x.id k).0 ex ∙ sym ((==_iff y.id k).0 ey)))

  -- `get_lead` returns the row under the key, or 404, and reads only.
  pub get_lead_lem : get_lead E k db ≡ (found_lead E (E.leads.get k db.leads), db)
  unfolding get_lead
  get_lead_lem =
      ap (λ (r : Result Lead). (r, db))
        (selected (E.leads.find (λ l. l.id == k) db.leads)
          (laws.leads.find-All (λ l. l.id == k) db.leads)
          (laws.leads.find-Distinct (λ l. l.id == k) db.leads)
          (λ l h.
            laws.leads.Has-find (λ m. m.id == k) k db.leads l h
              ((==_iff l.id k).1 (laws.leads.id-get k db.leads l h))))
