-- ===== src/Routes/Admin/Safety.antt =====
-- The administrators cannot lock themselves out.
use alma_lead_management_ser.Common.{
  ℕ, ◌≡◌, sym, subst, true, Option, some, List, [], ◌∷◌, Text, inl, inr, arith, Option-cases,
}
use alma_lead_management_ser.Results.{ok, err, Error, Result-cases}
use alma_lead_management_ser.Models.{User, admin, attorney}
use alma_lead_management_ser.Engine.{Engine, IsEngine, Db}
use alma_lead_management_ser.Security.{Crypto, TokenSettings}
use alma_lead_management_ser.Schemas.{parse_create_attorney}
use alma_lead_management_ser.Auth
use alma_lead_management_ser.Auth.Requesting.{
  register_user-keeps, deactivate_user-keeps, reactivate_user-keeps, delete_user-keeps,
}
use alma_lead_management_ser.Dependencies.{require_admin}
use alma_lead_management_ser.Dependencies.Access.{
  require_admin_iff, require_admin-reads, get_current_user-IsGenuine,
}
use alma_lead_management_ser.Routes.{Moment}
use alma_lead_management_ser.Routes.Admin.{
  create_attorney, deactivate_user, reactivate_user, delete_user,
}

-- A request to one of the handlers that change accounts, from anybody.
pub data Change : Type 0 where
  creates : (email password : Text) → Change
  deactivates reactivates deletes : (user_id : ℕ) → Change

module _ (E : Engine) where
  -- Somebody can act as an administrator.
  abbrev pub HasActiveAdmin : Db E → Type 0
  HasActiveAdmin db =
      (k : ℕ) × (u : User) × (E.users.get k db.users ≡ some u)
      × (u.is_active ≡ true)
      × (u.role ≡ admin)

module _ (E : Engine) (C : Crypto) (settings : TokenSettings) (email_str : Text → Option Text) where
  -- The database after the request was answered.
  pub answer : Moment → (token : Text) → Change → Db E → Db E
  answer m token (creates email password) db =
      (create_attorney E C settings m token email_str email password db).1
  answer m token (deactivates k) db = (deactivate_user E C settings m token k db).1
  answer m token (reactivates k) db = (reactivate_user E C settings m token k db).1
  answer m token (deletes k) db = (delete_user E C settings m token k db).1

  pub answer_all : List (Moment × Text × Change) → Db E → Db E
  answer_all [] db = db
  answer_all ((m, token, c) ∷ cs) db = answer_all cs (answer m token c db)

  -- A request that is not from an administrator changes nothing.
  answer_refused :
      (m : Moment) (token : Text) (c : Change) (db : Db E) (e : Error)
      → (require_admin E C settings m.now token db).0 ≡ err e
      → answer m token c db ≡ db
  unfolding answer create_attorney deactivate_user reactivate_user delete_user
  answer_refused m token (creates email password) db e h =
      ground (arith, require_admin-reads E C settings m.now token db)
  answer_refused m token (deactivates k) db e h =
      ground (arith, require_admin-reads E C settings m.now token db)
  answer_refused m token (reactivates k) db e h =
      ground (arith, require_admin-reads E C settings m.now token db)
  answer_refused m token (deletes k) db e h =
      ground (arith, require_admin-reads E C settings m.now token db)

  module _ (laws : IsEngine E) where
    -- The administrator who asks is there after the request as before.
    answer-keeps :
        (m : Moment) (token : Text) (c : Change) (db : Db E) (a : User)
        → (require_admin E C settings m.now token db).0 ≡ ok a
        → E.users.get a.id db.users ≡ some a
        → a.is_active ≡ true
        → E.users.get a.id (answer m token c db).users ≡ some a
    unfolding answer create_attorney deactivate_user reactivate_user delete_user Auth.get_user
    answer-keeps m token (creates email password) db a h here on =
        elim (Option-cases (parse_create_attorney email_str email password)) [
          | inl bad ↦ ground (arith, require_admin-reads E C settings m.now token db)
          | inr (body, good) ↦ ground (
            arith,
            require_admin-reads E C settings m.now token db,
            register_user-keeps E laws db a here C m.fresh_id m.now m.salt body.email body.password
                attorney,
          )
        ]
    answer-keeps m token (deactivates k) db a h here on = ground (
      arith,
      require_admin-reads E C settings m.now token db,
      deactivate_user-keeps E laws db a here k,
    )
    answer-keeps m token (reactivates k) db a h here on = ground (
      arith,
      require_admin-reads E C settings m.now token db,
      reactivate_user-keeps E laws db a here on k,
    )
    answer-keeps m token (deletes k) db a h here on = ground (
      arith,
      require_admin-reads E C settings m.now token db,
      delete_user-keeps E laws db a here k,
    )

    answer-HasActiveAdmin :
        (m : Moment) (token : Text) (c : Change) (db : Db E)
        → HasActiveAdmin E db
        → HasActiveAdmin E (answer m token c db)
    answer-HasActiveAdmin m token c db h =
        elim (Result-cases (require_admin E C settings m.now token db).0) [
          | inr (e, refused) ↦
              subst (HasActiveAdmin E) (sym (answer_refused m token c db e refused)) h
          | inl (a, let_in) ↦
              let (current, is_admin) =
                (require_admin_iff E C settings m.now token db a).0 let_in in
              let (here, on, genuine) =
                get_current_user-IsGenuine E C settings m.now token db laws a current in
              (a.id, a, answer-keeps m token c db a let_in here on, on, is_admin)
        ]

    -- Whatever requests come in to the handlers that change accounts, each served to its end before
    -- the next begins, from anybody, with any tokens and at any times, an active administrator is
    -- left, if there was one at the start.
    pub answer_all-HasActiveAdmin :
        (cs : List (Moment × Text × Change)) (db : Db E)
        → HasActiveAdmin E db
        → HasActiveAdmin E (answer_all cs db)
    unfolding answer_all
    answer_all-HasActiveAdmin [] db h = h
    answer_all-HasActiveAdmin ((m, token, c) ∷ cs) db h =
        answer_all-HasActiveAdmin cs (answer m token c db) (answer-HasActiveAdmin m token c db h)
