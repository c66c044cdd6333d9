-- ===== src/Effects/Trail.antt =====
-- The audit trail over any history.
use alma_lead_management_ser.Common.{
  ℕ, ◌≡◌, ◌⊎◌, refl, sym, ap, ◌∙◌, subst, true, Option, some, none, arith, inl, inr, ◌==◌,
  Bool-cases,
}
use mathlib.Core.Option
use alma_lead_management_ser.Models.{AuditLog}
use alma_lead_management_ser.Engine.{
  Engine, IsEngine, Db, delete_user_row, forget_user, set_null, audit_log_key, audit_log_clash,
}
use alma_lead_management_ser.Database.Laws.{get-insert_old}
use alma_lead_management_ser.Effects.{
  Effect, nothing, added_user, changed_user, removed_user, added_lead, moved_lead, added_entry,
}

-- The entry `b` tells what `a` told, up to the reference to the user.
abbrev pub SameButUser : AuditLog → AuditLog → Type 0
SameButUser a b = b ≡ record a { user_id = b.user_id }

-- The reference is as it was, or it is NULL and the account that it named is not stored.
abbrev pub UserKept : (E : Engine) → AuditLog → AuditLog → Db E → Type 0
UserKept E a b db =
    (b.user_id ≡ a.user_id)
    ⊎ ((b.user_id ≡ none) × ((j : ℕ) × (a.user_id ≡ some j) × (E.users.get j db.users ≡ none)))

module _ (E : Engine) (laws : IsEngine E) where
  same_key : (a b : AuditLog) → audit_log_key a ≡ audit_log_key b → audit_log_clash a b ≡ true
  same_key a b e = ground arith

  -- The entry after one step.
  abbrev pub Told : ℕ → AuditLog → Db E → Type 0
  Told k a db =
      (b : AuditLog) × (E.audit_logs.get k db.audit_logs ≡ some b)
      × SameButUser a b
      × UserKept E a b db

  -- `ON DELETE SET NULL` touches an entry only where it names the account.
  set_null-gone :
      (n : ℕ) (o : Option ℕ) (db : Db E)
      → (set_null n o ≡ o)
        ⊎ ((set_null n o ≡ none)
            × ((j : ℕ) × (o ≡ some j) × (E.users.get j (delete_user_row E n db).users ≡ none)))
  unfolding delete_user_row
  set_null-gone n none db = inl refl
  set_null-gone n (some j) db = elim (Bool-cases (j == n)) [
    | inl e ↦ inr (ground arith, (j, refl, laws.users.get-delete j n db.users ∙ ground arith))
    | inr e ↦ inl (ground arith)
  ]

  forgotten-Told :
      (n k : ℕ) (a : AuditLog) (db : Db E)
      → E.audit_logs.get k db.audit_logs ≡ some a
      → Told k a (delete_user_row E n db)
  unfolding delete_user_row
  forgotten-Told n k a db h = (
    forget_user n a,
    laws.audit_logs.get-update_all k (forget_user n) db.audit_logs (λ b. refl)
        ∙ ap (Option.map (forget_user n)) h,
    refl,
    set_null-gone n a.user_id db,
  )

  pub Effect-Told :
      {db db' : Db E} (k : ℕ) (a : AuditLog)
      → Effect E db db'
      → E.audit_logs.get k db.audit_logs ≡ some a
      → Told k a db'
  Effect-Told k a (nothing e) h = subst (Told k a) (sym e) (a, h, refl, inl refl)
  Effect-Told k a (added_user u users i e) h = subst (Told k a) (sym e) (a, h, refl, inl refl)
  Effect-Told k a (changed_user n u v g id email role e) h =
      subst (Told k a) (sym e) (a, h, refl, inl refl)
  Effect-Told {db} k a (removed_user n e) h = subst (Told k a) (sym e) (forgotten-Told n k a db h)
  Effect-Told k a (added_lead id now first last mail path leads i e) h =
      subst (Told k a) (sym e) (a, h, refl, inl refl)
  Effect-Told k a (moved_lead now n s user m g forward e) h =
      subst (Told k a) (sym e) (a, h, refl, inl refl)
  Effect-Told {db} k a (added_entry b logs i e) h = subst (Told k a) (sym e) (
    a,
    get-insert_old E.audit_logs laws.audit_logs same_key k b a db.audit_logs logs i h,
    refl,
    inl refl,
  )
