-- ===== src/Rls/Views/Requests.antt =====
-- The dependencies of app/core/dependencies.py and the relationship `reached_out_by` behind the
-- policies of revision 006.
use alma_lead_management_ser.Common.{
  ℕ, ◌≡◌, ◌≢◌, ◌↔◌, ◌⊎◌, refl, sym, ap, subst, inl, inr, Bool, true, false, Option, none, some, ◌∷◌,
  ◌++◌, Text, codes, arith, Option-cases, Bool-cases,
}
use alma_lead_management_ser.Results.{ok, err, Result-cases}
use alma_lead_management_ser.Models.{User, Lead}
use alma_lead_management_ser.Engine.{Engine, IsEngine, Db}
use alma_lead_management_ser.Leads.{reached_out_by}
use alma_lead_management_ser.Security.{
  Crypto, IsCrypto, TokenSettings, Payload, decode_access_token,
}
use alma_lead_management_ser.Dependencies.{get_current_user, unknown_user, deactivated, subject_id}
use alma_lead_management_ser.Dependencies.Access.{get_current_user-IsGenuine}
use alma_lead_management_ser.Context.{role_variables, set_current_user_id}
use alma_lead_management_ser.Context.Agreement.{get_db-subject, parsed_truthy}
use alma_lead_management_ser.Migrations.Columns.{users_policies}
use alma_lead_management_ser.Rls.{Settings, unset, set_variables, Truth, holds, user_readable}
use alma_lead_management_ser.Rls.Verdicts.{IsAdmin, ActsFor, user_readable_iff}
use alma_lead_management_ser.Rls.Views.{
  settings_after, request_settings, is_shown, shown, seen, as_seen, keep,
}

pub is_shown_iff : (t : Truth) → (is_shown t ≡ true) ↔ (t ≡ holds)
is_shown_iff t = ground arith

-- No statement of a role changes who is signed in.
set_variables-role :
    (role : Option Text) (s : Settings)
    → (set_variables (role_variables role) s).user_id ≡ s.user_id
set_variables-role none s = refl
set_variables-role (some role) s = ground arith

keep_iff :
    (test : User → Bool) (o : Option User) (u : User)
    → (keep test o ≡ some u) ↔ ((o ≡ some u) × (test u ≡ true))
keep_iff test none u = ground arith
keep_iff test (some v) u = (
  λ h. elim (Bool-cases (test v)) [ inl e ↦ ground arith | inr e ↦ ground arith ],
  λ h. ground arith,
)

module _ (C : Crypto) (s : Settings) (k : ℕ) (acts : ActsFor C s k) where
  pub shown_iff_acting :
      (u : User) → (shown C s u ≡ true) ↔ (IsAdmin s ⊎ ((k ≡ u.id) × (u.is_active ≡ true)))
  unfolding shown
  shown_iff_acting u = ground (
    arith,
    is_shown_iff (user_readable C users_policies s u),
    user_readable_iff C s u (λ h. ground arith),
  )

  -- On a connection that acts for an account, the user who reached out to a lead is loaded if and
  -- only if the key names one and the connection is an administrator's or this user is the account
  -- itself, active.
  pub reached_out_by_iff :
      (E : Engine) (db : Db E) (l : Lead) (v : User)
      → (reached_out_by (seen C s E) l (as_seen C s E db) ≡ some v)
        ↔ ((reached_out_by E l db ≡ some v) × (IsAdmin s ⊎ ((k ≡ v.id) × (v.is_active ≡ true))))
  unfolding reached_out_by
  reached_out_by_iff E db l v = elim (Option-cases l.reached_out_by_id) [
    | inl e ↦ ground arith
    | inr (j, e) ↦
        let found = E.users.get j db.users in
        ground (arith, keep_iff (shown C s) found v, shown_iff_acting v)
  ]

-- The user id of a request is the text of a UUID.
acting :
    (C : Crypto)
    → IsCrypto C
    → (role : Option Text) (k : ℕ)
    → ActsFor C (set_variables (set_current_user_id (C.uuid_str k) ∷ role_variables role) unset) k
acting C crypto role k =
    let parsed = crypto.uuid_parse-uuid_str k in
    ground (
      arith,
      set_variables-role role (record { user_id = some (C.uuid_str k); user_role = none }),
      parsed,
      parsed_truthy C crypto (C.uuid_str k) k parsed,
    )

module _ (E : Engine) (laws : IsEngine E) (C : Crypto) (crypto : IsCrypto C)
    (settings : TokenSettings) (now : ℕ) (token : Text) (db : Db E) where
  -- The settings of the connection of a request with this token.
  abbrev token_settings : Settings
  token_settings = request_settings C settings now (codes "Bearer " ++ token)

  pub request_settings-subject :
      (p : Payload) (k : ℕ)
      → decode_access_token C settings now token ≡ ok p
      → subject_id C p ≡ ok k
      → token_settings
        ≡ set_variables (set_current_user_id (C.uuid_str k) ∷ role_variables p.role) unset
  unfolding request_settings
  request_settings-subject p k decoded subject =
      ap settings_after (get_db-subject C crypto settings now token p k decoded subject)

  pub request_settings-ActsFor :
      (p : Payload) (k : ℕ)
      → decode_access_token C settings now token ≡ ok p
      → subject_id C p ≡ ok k
      → ActsFor C token_settings k
  request_settings-ActsFor p k decoded subject =
      subst (λ s. ActsFor C s k) (sym (request_settings-subject p k decoded subject))
        (acting C crypto p.role k)

  -- With the policies in force, `get_current_user` lets through exactly those whom it lets through
  -- without them: whoever is let through may see the own row.
  pub get_current_user-seen :
      (u : User)
      → ((get_current_user
            (seen C token_settings E)
            C
            settings
            now
            token
            (as_seen C token_settings E db)).0
          ≡ ok u)
        ↔ ((get_current_user E C settings now token db).0 ≡ ok u)
  unfolding get_current_user
  get_current_user-seen u = (
    (λ h. elim (Result-cases (decode_access_token C settings now token)) [
      | inr (e, q) ↦ absurd (ground arith)
      | inl (p, q) ↦ elim (Result-cases (subject_id C p)) [
        | inr (e, q') ↦ absurd (ground arith)
        | inl (k, q') ↦ elim (Option-cases (E.users.get k db.users)) [
          | inl e ↦ absurd (ground arith)
          | inr (v, e) ↦ elim (Bool-cases (shown C token_settings v)) [
            | inl t ↦ ground arith
            | inr t ↦ absurd (ground arith)
          ]
        ]
      ]
    ]),
    (λ h.
        let (_, on, (p, decoded, subject)) =
          get_current_user-IsGenuine E C settings now token db laws u h in
        let acts = request_settings-ActsFor p u.id decoded subject in
        let visible : shown C token_settings u ≡ true =
          (shown_iff_acting C token_settings u.id acts u).1 (inr (refl, on)) in
        ground (arith, visible)),
  )

  hidden_if_inactive :
      (u : User)
      → u.is_active ≡ false
      → ActsFor C token_settings u.id
      → token_settings.user_role ≢ some (codes "ADMIN")
      → shown C token_settings u ≡ false
  hidden_if_inactive u off acts role = elim (Bool-cases (shown C token_settings u)) [
    | inr e ↦ e
    | inl e ↦ absurd (elim ((shown_iff_acting C token_settings u.id acts u).0 e) [
      | inl h ↦ role h
      | inr (_, on) ↦ ground arith
    ])
  ]

  -- A deactivated account with a valid token that carries the role of an attorney is told by
  -- `get_current_user` that the user is not found, with 401, where without the policies the answer
  -- is 403: the own row is hidden.
  pub get_current_user-hides :
      (u : User) (p : Payload)
      → decode_access_token C settings now token ≡ ok p
      → subject_id C p ≡ ok u.id
      → p.role ≡ some (codes "ATTORNEY")
      → E.users.get u.id db.users ≡ some u
      → u.is_active ≡ false
      → ((get_current_user
            (seen C token_settings E)
            C
            settings
            now
            token
            (as_seen C token_settings E db)).0
          ≡ err unknown_user)
        × ((get_current_user E C settings now token db).0 ≡ err deactivated)
  unfolding get_current_user
  get_current_user-hides u p decoded subject role found off =
      let hidden : shown C token_settings u ≡ false =
        hidden_if_inactive u off (request_settings-ActsFor p u.id decoded subject) (
          subst (λ s. s.user_role ≢ some (codes "ADMIN"))
            (sym (request_settings-subject p u.id decoded subject))
            (rw (role) (λ e. ground arith))) in
      (ground arith, ground arith)
