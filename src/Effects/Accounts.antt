-- ===== src/Effects/Accounts.antt =====
-- Accounts over any history.
use alma_lead_management_ser.Common.{ℕ, ◌≡◌, sym, subst, some, arith}
use alma_lead_management_ser.Models.{User}
use alma_lead_management_ser.Engine.{Engine, IsEngine, Db, delete_user_row}
use alma_lead_management_ser.Database.Laws.{get-update_known}
use alma_lead_management_ser.Auth.Lookup.{UniqueEmails}
use alma_lead_management_ser.Auth.Register.{insert-UniqueEmails}
use alma_lead_management_ser.Effects.{
  Effect, nothing, added_user, changed_user, removed_user, added_lead, moved_lead, added_entry,
  History, here, next,
}

module _ (E : Engine) (laws : IsEngine E) where
  update-UniqueEmails :
      (n : ℕ) (u v : User) (db : Db E)
      → E.users.get n db.users ≡ some u
      → v.id ≡ u.id
      → v.email ≡ u.email
      → UniqueEmails E db
      → UniqueEmails E (record db { users = E.users.update v db.users })
  update-UniqueEmails n u v db h id email unique j k a b ha hb same = ground (
    arith,
    get-update_known E.users laws.users n j u v db.users h id,
    get-update_known E.users laws.users n k u v db.users h id,
    unique j k a b,
    unique n k u b,
    unique j n a u,
  )

  delete-UniqueEmails :
      (n : ℕ) (db : Db E) → UniqueEmails E db → UniqueEmails E (delete_user_row E n db)
  unfolding delete_user_row
  delete-UniqueEmails n db unique j k a b ha hb same = ground (
    arith,
    laws.users.get-delete j n db.users,
    laws.users.get-delete k n db.users,
    unique j k a b,
  )

  Effect-UniqueEmails : {db db' : Db E} → Effect E db db' → UniqueEmails E db → UniqueEmails E db'
  Effect-UniqueEmails (nothing e) h = subst (UniqueEmails E) (sym e) h
  Effect-UniqueEmails {db} (added_user u users i e) h =
      subst (UniqueEmails E) (sym e) (insert-UniqueEmails E laws u db users i h)
  Effect-UniqueEmails {db} (changed_user k u v g id email role e) h =
      subst (UniqueEmails E) (sym e) (update-UniqueEmails k u v db g id email h)
  Effect-UniqueEmails {db} (removed_user k e) h =
      subst (UniqueEmails E) (sym e) (delete-UniqueEmails k db h)
  Effect-UniqueEmails (added_lead id now f l m r leads i e) h = subst (UniqueEmails E) (sym e) h
  Effect-UniqueEmails (moved_lead now k s user l g forward e) h = subst (UniqueEmails E) (sym e) h
  Effect-UniqueEmails (added_entry a logs i e) h = subst (UniqueEmails E) (sym e) h

  -- In every history of the services no two accounts share an email, if none did at the start.
  pub History-UniqueEmails :
      {db db' : Db E} → UniqueEmails E db → History E db db' → UniqueEmails E db'
  History-UniqueEmails h here = h
  History-UniqueEmails h (next past e) = Effect-UniqueEmails e (History-UniqueEmails h past)
