-- ===== src/Auth/Lookup.antt =====
-- Looking an account up by its email.
use alma_lead_management_ser.Common.{
  ℕ, ◌≡◌, ◌≢◌, ◌⊎◌, refl, sym, ap, ◌∙◌, inl, inr, true, Option, none, some, List, [], ◌∷◌, map,
  Text, text_eq, text_eq_iff, All,
}
use alma_lead_management_ser.Results.{Result, ok}
use alma_lead_management_ser.Models.{User}
use alma_lead_management_ser.Database.{Has, Distinct}
use alma_lead_management_ser.Engine.{Engine, IsEngine, Db, user_key}
use alma_lead_management_ser.Auth.{scalar_one_or_none, user_by_email}

module _ (E : Engine) where
  -- Two accounts with one email are one account.
  abbrev pub UniqueEmails : Db E → Type 0
  UniqueEmails db =
      (j k : ℕ) (u v : User)
      → E.users.get j db.users ≡ some u
      → E.users.get k db.users ≡ some v
      → u.email ≡ v.email
      → j ≡ k

  -- No account has the email.
  abbrev pub Unregistered : Text → Db E → Type 0
  Unregistered email db = (k : ℕ) (u : User) → E.users.get k db.users ≡ some u → u.email ≢ email

module _ (E : Engine) (laws : IsEngine E) (db : Db E) (email : Text) where
  abbrev FoundBy : User → Type 0
  FoundBy u = (E.users.get u.id db.users ≡ some u) × (text_eq u.email email ≡ true)

  one_row : UniqueEmails E db → (x y : User) → FoundBy x → FoundBy y → user_key x ≢ user_key y → ⊥
  one_row unique x y (gx, ex) (gy, ey) ne = ne (
      unique x.id y.id x y gx gy
        ((text_eq_iff x.email email).0 ex ∙ sym ((text_eq_iff y.email email).0 ey)))

  -- A result of the query that holds some row and none with another key is that row.
  the_only_row :
      UniqueEmails E db
      → (l : List User) → All FoundBy l
      → Distinct (map user_key l)
      → (u : User) → Has u l
      → scalar_one_or_none l ≡ ok (some u)
  the_only_row unique [] h d u m = absurd m
  the_only_row unique (x ∷ []) h d u (inl e) = ap (λ (v : User). ok (some v)) (sym e)
  the_only_row unique (x ∷ []) h d u (inr m) = absurd m
  the_only_row unique (x ∷ y ∷ zs) (fx, (fy, _)) ((ne, _), _) u m =
      absurd (one_row unique x y fx fy ne)

  -- An account is found under its own email.
  pub user_by_email_found :
      UniqueEmails E db
      → (k : ℕ) (u : User) → E.users.get k db.users ≡ some u
      → u.email ≡ email
      → user_by_email E email db ≡ (ok (some u), db)
  unfolding user_by_email
  user_by_email_found unique k u h e =
      ap (λ (r : Result (Option User)). (r, db))
        (the_only_row unique (E.users.find (λ v. text_eq v.email email) db.users)
          (laws.users.find-All (λ v. text_eq v.email email) db.users)
          (laws.users.find-Distinct (λ v. text_eq v.email email) db.users) u
          (laws.users.Has-find (λ v. text_eq v.email email) k db.users u h
            ((text_eq_iff u.email email).1 e)))

  no_row :
      Unregistered E email db → (l : List User) → All FoundBy l → scalar_one_or_none l ≡ ok none
  no_row free [] h = refl
  no_row free (x ∷ l) ((g, e), _) = absurd (free x.id x g ((text_eq_iff x.email email).0 e))

  pub user_by_email_missing : Unregistered E email db → user_by_email E email db ≡ (ok none, db)
  unfolding user_by_email
  user_by_email_missing free =
      ap (λ (r : Result (Option User)). (r, db))
        (no_row free (E.users.find (λ v. text_eq v.email email) db.users)
          (laws.users.find-All (λ v. text_eq v.email email) db.users))

  -- With unique emails the query never raises: it finds nothing, and the email is free, or it finds
  -- an account with the email.
  pub user_by_email-cases :
      UniqueEmails E db
      → ((user_by_email E email db ≡ (ok none, db)) × Unregistered E email db)
        ⊎ ((u : User) × (user_by_email E email db ≡ (ok (some u), db))
            × (E.users.get u.id db.users ≡ some u)
            × (u.email ≡ email))
  unfolding user_by_email
  user_by_email-cases unique =
      go (E.users.find (λ v. text_eq v.email email) db.users)
        (laws.users.find-All (λ v. text_eq v.email email) db.users)
        (laws.users.find-Distinct (λ v. text_eq v.email email) db.users)
        (λ k u h e.
          laws.users.Has-find (λ v. text_eq v.email email) k db.users u h
            ((text_eq_iff u.email email).1 e))
    where
      answer : List User → Result (Option User) × Db E
      answer l = (scalar_one_or_none l, db)

      go :
          (l : List User)
          → All FoundBy l
          → Distinct (map user_key l)
          → ((k : ℕ) (u : User) → E.users.get k db.users ≡ some u → u.email ≡ email → Has u l)
          → ((answer l ≡ (ok none, db)) × Unregistered E email db)
            ⊎ ((u : User) × (answer l ≡ (ok (some u), db))
                × (E.users.get u.id db.users ≡ some u)
                × (u.email ≡ email))
      go [] h d listed = inl (refl, λ k u g e. listed k u g e)
      go (x ∷ []) h d listed = inr (x, refl, h.0.0, (text_eq_iff x.email email).0 h.0.1)
      go (x ∷ y ∷ zs) (fx, (fy, _)) ((ne, _), _) listed = absurd (one_row unique x y fx fy ne)
