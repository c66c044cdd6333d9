-- ===== src/Context/Agreement.antt =====
-- The database is told of the user whom the handlers see.
use alma_lead_management_ser.Common.{
  ℕ, ◌≡◌, refl, ◌⊎◌, inl, inr, true, false, Option, some, [], ◌∷◌, ◌++◌, drop, Text, truthy,
  starts_with, codes, arith, Option-cases,
}
use alma_lead_management_ser.Results.{ok, err, Error}
use alma_lead_management_ser.Models.{User}
use alma_lead_management_ser.Engine.{Engine, IsEngine, Db}
use alma_lead_management_ser.Security.{
  Crypto, IsCrypto, TokenSettings, Payload, decode_access_token,
}
use alma_lead_management_ser.Dependencies.{get_current_user, subject_id}
use alma_lead_management_ser.Dependencies.Access.{get_current_user-IsGenuine}
use alma_lead_management_ser.Context.{set_rls_context, get_db, set_current_user_id, role_variables}

pub parsed_truthy :
    (C : Crypto) → IsCrypto C → (s : Text) (k : ℕ) → C.uuid_parse s ≡ some k → truthy s ≡ true
parsed_truthy C crypto [] k e = absurd (ground (arith, crypto.uuid_parse_empty))
parsed_truthy C crypto (c ∷ s) k e = refl

pub get_db-subject :
    (C : Crypto)
    → IsCrypto C
    → (settings : TokenSettings) (now : ℕ) (token : Text) (p : Payload) (k : ℕ)
    → decode_access_token C settings now token ≡ ok p
    → subject_id C p ≡ ok k
    → get_db C settings now (set_rls_context C settings now (codes "Bearer " ++ token))
      ≡ ok (set_current_user_id (C.uuid_str k) ∷ role_variables p.role)
unfolding get_db set_rls_context
get_db-subject C crypto settings now token p k decoded subject = elim (Option-cases p.sub) [
  | inl e ↦ absurd (ground arith)
  | inr (sub, e) ↦
      let parsed : C.uuid_parse sub ≡ some k = elim (Option-cases (C.uuid_parse sub)) [
        | inl q ↦ absurd (ground arith)
        | inr (j, q) ↦ ground arith
      ] in
      ground (arith, parsed, parsed_truthy C crypto sub k parsed)
]

module _ (E : Engine) (laws : IsEngine E) (C : Crypto) (crypto : IsCrypto C)
    (settings : TokenSettings) (now : ℕ) (token : Text) (db : Db E) where
  -- If a handler's dependency lets a user through, then the connection of the request has been told
  -- of this user, and of no other: the first variable is the text of the key of the account, and
  -- nothing but a role follows.
  pub get_db-agrees :
      (u : User)
      → (get_current_user E C settings now token db).0 ≡ ok u
      → (role : Option Text) × (get_db C settings now
            (set_rls_context C settings now (codes "Bearer " ++ token))
          ≡ ok (set_current_user_id (C.uuid_str u.id) ∷ role_variables role))
  get_db-agrees u h =
      let (here, on, (p, decoded, subject)) =
        get_current_user-IsGenuine E C settings now token db laws u h in
      (p.role, get_db-subject C crypto settings now token p u.id decoded subject)

  -- A request without a valid token sets no variable, whatever its header is otherwise.
  pub get_db-anonymous :
      (auth_header : Text)
      → ((starts_with auth_header (codes "Bearer ")) ≡ false)
        ⊎ ((e : Error) × (decode_access_token C settings now (drop 7 auth_header) ≡ err e))
      → get_db C settings now (set_rls_context C settings now auth_header) ≡ ok []
  unfolding get_db set_rls_context
  get_db-anonymous auth_header h = ground arith
