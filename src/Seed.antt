-- ===== src/Seed.antt =====
-- app/db/seed.py, and the start of the application in app/main.py that calls it.
pub mod Idempotence
mod Tests
use alma_lead_management_ser.Common.{ℕ, not, ◌||◌, Option, none, some, if◌then◌else◌, Text, truthy}
use alma_lead_management_ser.Results.{Action, pure, ◌>>=◌, ◌>>◌}
use alma_lead_management_ser.Models.{User, UserRole, admin, attorney, new_user}
use alma_lead_management_ser.Engine.{Engine, Db, is_some}
use alma_lead_management_ser.Security.{Crypto, hash_password}
use alma_lead_management_ser.Auth.{user_by_email, add_user}

pub record SeedSettings : Type 0 where
  pub admin_email : Text
  pub admin_password : Text
  pub seed_attorney_email : Text
  pub seed_attorney_password : Text

-- What one run of the application meets when it adds a row.
pub record Start : Type 0 where
  pub now : ℕ
  pub admin_id : ℕ
  pub attorney_id : ℕ
  pub salt : Text

module _ (E : Engine) (C : Crypto) where
  abbrev unless_there : Option User → Action (Db E) (Unit {0}) → Action (Db E) (Unit {0})
  unless_there none add = add
  unless_there (some user) add = pure tt

  -- `_seed_user`
  unfoldable pub seed_user :
      (fresh_id now : ℕ) → (salt email password : Text) → UserRole → Action (Db E) (Unit {0})
  seed_user fresh_id now salt email password role = do
    existing ← user_by_email E email
    unless_there existing
        (add_user E (new_user fresh_id now email (hash_password C salt password) role) >> pure tt)

  -- `if not email or not password: return`
  abbrev pub seed_configured :
      (fresh_id now : ℕ) → (salt email password : Text) → UserRole → Action (Db E) (Unit {0})
  seed_configured fresh_id now salt email password role =
      if not (truthy email) || not (truthy password)
      then pure tt
      else seed_user fresh_id now salt email password role

  unfoldable pub seed_admin : SeedSettings → Start → Action (Db E) (Unit {0})
  seed_admin settings s =
      seed_configured s.admin_id s.now s.salt settings.admin_email settings.admin_password admin

  unfoldable pub seed_attorney : SeedSettings → Start → Action (Db E) (Unit {0})
  seed_attorney settings s =
      seed_configured s.attorney_id s.now s.salt settings.seed_attorney_email
        settings.seed_attorney_password attorney

  -- `lifespan`, up to its `yield`.
  unfoldable pub start : SeedSettings → Start → Action (Db E) (Unit {0})
  start settings s = seed_admin settings s >> seed_attorney settings s
