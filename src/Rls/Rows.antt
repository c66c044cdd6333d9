-- ===== src/Rls/Rows.antt =====
-- Which leads and which entries of the audit trail the policies of revision 006 show and let through.
use alma_lead_management_ser.Common.{
  ◌≡◌, ◌≢◌, ◌⊎◌, ◌↔◌, inl, inr, refl, true, List, [], ◌∷◌, codes, arith,
}
use alma_lead_management_ser.Models.{User}
use alma_lead_management_ser.Database.{Has}
use alma_lead_management_ser.Security.{Crypto}
use alma_lead_management_ser.Migrations.Columns.{
  users_policies, leads_policies, audit_logs_policies, uid_006,
}
use alma_lead_management_ser.Rls.{
  Settings, Truth, holds, fails, raises, and_truth, or_truth, invalid, cast_uid, at_user, elsewhere,
  user_readable, exists_in, visible_user_exists, row_readable, row_insertable, row_updatable,
  equals_text,
}
use alma_lead_management_ser.Rls.Verdicts.{
  IsAdmin, ActsFor, user_readable_iff, own_truth, own_truth-holds, own_truth-defined,
  user_readable-defined,
}
use alma_lead_management_ser.Rls.Truths.{
  and_truth-holds, equals_text-holds, or_truth-raises, and_truth-raises, or_truth-cases,
  or_truth-here, or_truth-there, or_truth-fails, and_truth-fails,
}

module _ (test : User → Truth) (defined : (u : User) → test u ≢ raises) where
  exists_in-defined : (us : List User) → exists_in test us ≢ raises
  exists_in-defined [] = ground arith
  exists_in-defined (u ∷ us) =
      or_truth-raises (test u) (exists_in test us) (defined u) (exists_in-defined us)

  exists_in_found :
      (us : List User) → exists_in test us ≡ holds → (u : User) × Has u us × (test u ≡ holds)
  exists_in_found [] h = ground arith
  exists_in_found (u ∷ us) h = elim (or_truth-cases (test u) (exists_in test us) h) [
    | inl p ↦ (u, inl refl, p)
    | inr p ↦ let found = exists_in_found us p in (found.0, inr found.1, found.2)
  ]

  exists_in_finds :
      (us : List User) (u : User) → Has u us → test u ≡ holds → exists_in test us ≡ holds
  exists_in_finds [] u h p = ground arith
  exists_in_finds (v ∷ us) u (inl h) p =
      or_truth-here (test v) (exists_in test us) (ground arith) (exists_in-defined us)
  exists_in_finds (v ∷ us) u (inr h) p =
      or_truth-there (test v) (exists_in test us) (defined v) (exists_in_finds us u h p)

module _ (C : Crypto) (s : Settings) (users : List User)
    (cast : cast_uid C uid_006 s ≢ invalid) where
  -- What the subquery of the policies on `leads` says of one account.
  current_truth : User → Truth
  current_truth u = and_truth (user_readable C users_policies s u) (own_truth C s u)

  current_truth-holds :
      (u : User) → (current_truth u ≡ holds) ↔ (ActsFor C s u.id × (u.is_active ≡ true))
  unfolding current_truth
  current_truth-holds u = ground (
    arith,
    and_truth-holds (user_readable C users_policies s u) (own_truth C s u),
    user_readable_iff C s u cast,
    own_truth-holds C s u,
  )

  current_truth-defined : (u : User) → current_truth u ≢ raises
  unfolding current_truth
  current_truth-defined u =
      and_truth-raises (user_readable C users_policies s u) (own_truth C s u)
        (user_readable-defined C s u cast) (own_truth-defined C s u cast)

  -- Somebody who is active is signed in.
  abbrev pub IsSignedIn : Type 0
  IsSignedIn = (u : User) × Has u users × ActsFor C s u.id × (u.is_active ≡ true)

  exists_current_iff : (exists_in current_truth users ≡ holds) ↔ IsSignedIn
  exists_current_iff = (
    (λ h.
        let found = exists_in_found current_truth current_truth-defined users h in
        let own = (current_truth-holds found.0).0 found.2 in (found.0, found.1, own.0, own.1)),
    (λ p.
        exists_in_finds current_truth current_truth-defined users p.0 p.1
          ((current_truth-holds p.0).1 (p.2, p.3))),
  )

  leads_readable-eq :
      row_readable C users_policies s users leads_policies
      ≡ or_truth (exists_in current_truth users) fails
  unfolding row_readable elsewhere visible_user_exists at_user current_truth own_truth
  leads_readable-eq = refl

  leads_updatable-eq :
      row_updatable C users_policies s users leads_policies
      ≡ and_truth
          (or_truth (exists_in current_truth users) fails)
          (or_truth (exists_in current_truth users) fails)
  unfolding row_updatable elsewhere visible_user_exists at_user current_truth own_truth
  leads_updatable-eq = refl

  -- Under the policies of revision 006, with a user id that is a UUID or missing: an account is shown
  -- to administrators and to its active owner; a lead is shown and may be changed while an active
  -- user is signed in; the audit trail is shown to administrators, and never changed; leads and
  -- entries of the trail are added by anyone.
  pub policies_iff :
      (u : User)
      → ((user_readable C users_policies s u ≡ holds)
          ↔ (IsAdmin s ⊎ (ActsFor C s u.id × (u.is_active ≡ true))))
        × ((row_readable C users_policies s users leads_policies ≡ holds) ↔ IsSignedIn)
        × ((row_updatable C users_policies s users leads_policies ≡ holds) ↔ IsSignedIn)
        × ((row_readable C users_policies s users audit_logs_policies ≡ holds) ↔ IsAdmin s)
        × (row_updatable C users_policies s users audit_logs_policies ≢ holds)
        × (row_insertable C users_policies s users leads_policies ≡ holds)
        × (row_insertable C users_policies s users audit_logs_policies ≡ holds)
  unfolding row_readable row_updatable row_insertable elsewhere
  policies_iff u = (
    user_readable_iff C s u cast,
    ground (arith, leads_readable-eq, exists_current_iff),
    ground (arith, leads_updatable-eq, exists_current_iff),
    (let admin = equals_text s.user_role (codes "ADMIN") in
        ground (arith, or_truth-fails admin, equals_text-holds s.user_role (codes "ADMIN"))),
    (let admin = equals_text s.user_role (codes "ADMIN") in and_truth-fails (or_truth admin fails)),
    refl,
    refl,
  )

  pub leads_readable-defined : row_readable C users_policies s users leads_policies ≢ raises
  leads_readable-defined = ground (
    arith,
    leads_readable-eq,
    or_truth-raises (exists_in current_truth users) fails
        (exists_in-defined current_truth current_truth-defined users) (λ h. ground arith),
  )
