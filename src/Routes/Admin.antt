-- ===== src/Routes/Admin.antt =====
-- app/api/routes/admin.py: the handlers that change accounts, and the listings.
pub mod Safety
pub mod Interleaving
mod Tests
use alma_lead_management_ser.Common.{
  ℕ, ◌++◌, Bool, Option, none, some, List, [], ◌∷◌, leb, ◌&&◌, if◌then◌else◌, Text, codes,
}
use alma_lead_management_ser.Results.{
  Result, ok, err, Error, request_validation_error, Action, pure, raise, lift, ◌>>=◌, ◌>>◌,
}
use alma_lead_management_ser.Models.{User, AuditLog, attorney}
use alma_lead_management_ser.Engine.{Engine, Db}
use alma_lead_management_ser.Security.{Crypto, TokenSettings}
use alma_lead_management_ser.Schemas.{CreateAttorneyRequest, parse_create_attorney}
use alma_lead_management_ser.Auth
use alma_lead_management_ser.Storage.{StorageSettings, FileInfo}
use alma_lead_management_ser.Files as FileService
use alma_lead_management_ser.Dependencies.{require_admin}
use alma_lead_management_ser.Audit.Log as Log
use alma_lead_management_ser.Audit.Log.{get_all_audit_logs}
use alma_lead_management_ser.Routes.{
  Shared, on_db, on_files, Moment, Task, audit, Handler, valid_body, valid_limit,
}

-- The audit entry of an action of `admin` on the account with the key `user_id`.
abbrev pub account_entry :
    (action : Text) → (user_id : ℕ) → (admin : User) → (detail : Text) → Log.Action
account_entry action user_id admin detail = record {
  entity_type = codes "user";
  entity_id = user_id;
  action = action;
  user_id = some admin.id;
  user_email = some admin.email;
  old_state = none;
  new_state = none;
  detail = some detail;
  lead_id = none;
}

module _ (E : Engine) (C : Crypto) (settings : TokenSettings) (m : Moment) (token : Text) where
  unfoldable pub create_attorney :
      (email_str : Text → Option Text) → (email password : Text) → Handler E User
  create_attorney email_str email password = do
    admin ← require_admin E C settings m.now token
    body ← lift (valid_body (parse_create_attorney email_str email password))
    user ← Auth.register_user E C m.fresh_id m.now m.salt body.email body.password attorney
    pure (
      user,
      audit (
            account_entry (codes "attorney_created") user.id admin
              (codes "Created attorney account " ++ user.email))
          ∷ [],
    )

  unfoldable pub list_users : Handler E (List User)
  list_users = do
    admin ← require_admin E C settings m.now token
    λ db. (ok (Auth.list_users E db, []), db)

  unfoldable pub get_user : ℕ → Handler E User
  get_user user_id = do
    admin ← require_admin E C settings m.now token
    user ← Auth.get_user E user_id
    pure (user, [])

  unfoldable pub deactivate_user : ℕ → Handler E User
  deactivate_user user_id = do
    admin ← require_admin E C settings m.now token
    user ← Auth.deactivate_user E user_id admin
    pure (
      user,
      audit (
            account_entry (codes "user_deactivated") user.id admin
              (codes "Deactivated " ++ user.email))
          ∷ [],
    )

  unfoldable pub reactivate_user : ℕ → Handler E User
  reactivate_user user_id = do
    admin ← require_admin E C settings m.now token
    user ← Auth.reactivate_user E user_id
    pure (
      user,
      audit (
            account_entry (codes "user_reactivated") user.id admin
              (codes "Reactivated " ++ user.email))
          ∷ [],
    )

  unfoldable pub delete_user : ℕ → Handler E (Unit {0})
  delete_user user_id = do
    admin ← require_admin E C settings m.now token
    target ← Auth.get_user E user_id
    Auth.delete_user E user_id admin
    pure (
      tt,
      audit (
            account_entry (codes "user_deleted") target.id admin
              (codes "Deleted user " ++ target.email))
          ∷ [],
    )

  unfoldable pub list_files :
      StorageSettings
      → (pages : List (Option (List FileInfo))) → Action (Shared E) (List FileInfo × List Task)
  list_files storage pages = do
    admin ← on_db (require_admin E C settings m.now token)
    files ← on_files (FileService.list_files storage pages)
    pure (files, [])

  unfoldable pub list_audit_logs :
      (entity_type action : Option Text) → (limit offset : ℕ) → Handler E (List AuditLog × ℕ)
  list_audit_logs entity_type action limit offset = do
    admin ← require_admin E C settings m.now token
    lift (if valid_limit limit then ok tt else err request_validation_error)
    λ db. (ok (get_all_audit_logs E db entity_type action limit offset, []), db)
