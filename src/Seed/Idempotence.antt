-- ===== src/Seed/Idempotence.antt =====
-- Starting the application again seeds nothing again.
use alma_lead_management_ser.Common.{
  ℕ, ◌≡◌, refl, sym, ap, subst, ◌⊎◌, inl, inr, true, some, Text, truthy, arith, Option-cases,
  Bool-cases, not, ◌||◌,
}
use alma_lead_management_ser.Results.{Result, ok, Result-cases}
use alma_lead_management_ser.Models.{User, UserRole, new_user, admin, attorney}
use alma_lead_management_ser.Engine.{Engine, IsEngine, Db, user_key, user_clash}
use alma_lead_management_ser.Database.Laws.{get-insert_self, get-insert_old}
use alma_lead_management_ser.Security.{Crypto, hash_password}
use alma_lead_management_ser.Auth.Lookup.{UniqueEmails, user_by_email_found, user_by_email-cases}
use alma_lead_management_ser.Auth.Register.{insert-UniqueEmails}
use alma_lead_management_ser.Seed.{
  SeedSettings, Start, seed_user, seed_configured, seed_admin, seed_attorney, start,
}

module _ (E : Engine) where
  -- Some account has the email.
  abbrev pub Registered : Text → Db E → Type 0
  Registered email db = (k : ℕ) × (u : User) × (E.users.get k db.users ≡ some u) × (u.email ≡ email)

same_key : (u v : User) → user_key u ≡ user_key v → user_clash u v ≡ true
same_key u v e = ground arith

module _ (E : Engine) where
  -- There is nothing to seed.
  abbrev pub Settled : (email password : Text) → Db E → Type 0
  Settled email password db =
      ((not (truthy email) || not (truthy password)) ≡ true) ⊎ Registered E email db

module _ (E : Engine) (laws : IsEngine E) (C : Crypto) (fresh_id now : ℕ)
    (salt email password : Text) (role : UserRole) (db : Db E) (unique : UniqueEmails E db) where
  abbrev seeded : Result (Unit {0}) × Db E
  seeded = seed_configured E C fresh_id now salt email password role db

  -- An account that is not configured, or is there already, is left alone.
  seed_skips : Settled E email password db → seeded ≡ (ok tt, db)
  unfolding seed_user
  seed_skips (inl off) = ground arith
  seed_skips (inr (k, u, h, e)) = ground (arith, user_by_email_found E laws db email unique k u h e)

  -- What a seed can do to the database: nothing, or the insertion of the account.
  seed-outcome :
      seeded.0 ≡ ok tt
      → ((seeded.1 ≡ db) × Settled E email password db)
        ⊎ ((users : E.users.Store) × (E.users.insert
                (new_user fresh_id now email (hash_password C salt password) role)
                db.users
              ≡ some users)
            × (seeded.1 ≡ record db { users = users }))
  unfolding seed_user
  seed-outcome h = elim (Bool-cases (not (truthy email) || not (truthy password))) [
    | inl off ↦ inl (ground arith, inl off)
    | inr on ↦ elim (user_by_email-cases E laws db email unique) [
      | inr (u, looked, found, same) ↦ inl (ground (arith, looked), inr (u.id, u, found, same))
      | inl (looked, free) ↦
          elim (Option-cases (
            E.users.insert (new_user fresh_id now email (hash_password C salt password) role)
              db.users)) [
                | inl e ↦ absurd (ground (arith, looked))
                | inr (users, e) ↦ inr (users, e, ground (arith, looked))
              ]
    ]
  ]

  -- A seed that does not raise leaves the account settled and every account that there was, and
  -- emails stay unique.
  seed-settles :
      seeded.0 ≡ ok tt
      → Settled E email password seeded.1
        × ((other : Text) → Registered E other db → Registered E other seeded.1)
        × UniqueEmails E seeded.1
  seed-settles h = elim (seed-outcome h) [
    | inl (same, settled) ↦ (
      subst (Settled E email password) (sym same) settled,
      λ other r. subst (Registered E other) (sym same) r,
      subst (UniqueEmails E) (sym same) unique,
    )
    | inr (users, e, done) ↦
        let u = new_user fresh_id now email (hash_password C salt password) role in
        let db' = record db { users = users } in
        (
          subst (Settled E email password) (sym done) (
              inr (
                fresh_id,
                u,
                get-insert_self E.users laws.users same_key u db.users users e,
                refl,
              )),
          λ other (k, v, g, q).
              subst (Registered E other) (sym done)
                (k, v, get-insert_old E.users laws.users same_key k u v db.users users e g, q),
          subst (UniqueEmails E) (sym done) (insert-UniqueEmails E laws u db users e unique),
        )
  ]

module _ (E : Engine) (laws : IsEngine E) (C : Crypto) (settings : SeedSettings) (db : Db E) where
  start_both :
      (s : Start) (d d1 d2 : Db E)
      → seed_admin E C settings s d ≡ (ok tt, d1)
      → seed_attorney E C settings s d1 ≡ (ok tt, d2)
      → start E C settings s d ≡ (ok tt, d2)
  unfolding start
  start_both s d d1 d2 a b = ground (arith, a, b)

  -- A start that does not raise has seeded both accounts without an exception.
  start_parts :
      (s : Start) (d : Db E)
      → (start E C settings s d).0 ≡ ok tt
      → ((seed_admin E C settings s d).0 ≡ ok tt)
        × ((seed_attorney E C settings s (seed_admin E C settings s d).1).0 ≡ ok tt)
  unfolding start
  start_parts s d h = elim (Result-cases (seed_admin E C settings s d).0) [
    | inl (a, e) ↦ (ground arith, ground arith)
    | inr (e, q) ↦ absurd (ground arith)
  ]

  again-Settled :
      (s : Start) (d : Db E)
      → UniqueEmails E d
      → Settled E settings.admin_email settings.admin_password d
      → Settled E settings.seed_attorney_email settings.seed_attorney_password d
      → start E C settings s d ≡ (ok tt, d)
  unfolding seed_admin seed_attorney
  again-Settled s d unique a b =
      start_both s d d d (seed_skips E laws C s.admin_id s.now s.salt _ _ admin d unique a)
        (seed_skips E laws C s.attorney_id s.now s.salt _ _ attorney d unique b)

  keeps-Settled :
      (email password : Text) (d d' : Db E)
      → ((other : Text) → Registered E other d → Registered E other d')
      → Settled E email password d
      → Settled E email password d'
  keeps-Settled email password d d' keeps (inl off) = inl off
  keeps-Settled email password d d' keeps (inr r) = inr (keeps email r)

  -- What a start that does not raise leaves behind.
  start-Settled :
      (s : Start)
      → UniqueEmails E db
      → (start E C settings s db).0 ≡ ok tt
      → (d : Db E) × (start E C settings s db ≡ (ok tt, d))
        × UniqueEmails E d
        × Settled E settings.admin_email settings.admin_password d
        × Settled E settings.seed_attorney_email settings.seed_attorney_password d
  unfolding seed_admin seed_attorney
  start-Settled s unique h =
      let d1 = (seed_admin E C settings s db).1 in
      let d2 = (seed_attorney E C settings s d1).1 in
      let (p, q) = start_parts s db h in
      let one =
        seed-settles E laws C s.admin_id s.now s.salt settings.admin_email settings.admin_password
          admin db unique p in
      let two =
        seed-settles E laws C s.attorney_id s.now s.salt settings.seed_attorney_email
          settings.seed_attorney_password attorney d1 one.2 q in
      (
        d2,
        start_both s db d1 d2 (ap (λ (r : Result (Unit {0})). (r, d1)) p)
            (ap (λ (r : Result (Unit {0})). (r, d2)) q),
        two.2,
        keeps-Settled _ _ d1 d2 two.1 one.0,
        two.0,
      )

  -- Where emails are unique, once the application has started without an exception, a start right
  -- after it finds the configured accounts in place and changes nothing, whatever the time, the keys
  -- and the salt of that start.
  pub start_idempotent :
      (first again : Start)
      → UniqueEmails E db
      → (start E C settings first db).0 ≡ ok tt
      → let db' = (start E C settings first db).1 in start E C settings again db' ≡ (ok tt, db')
  start_idempotent first again unique h =
      let (d, done, unique', a, b) = start-Settled first unique h in
      subst (λ (p : Result (Unit {0}) × Db E). start E C settings again p.1 ≡ (ok tt, p.1))
        (sym done) (again-Settled again d unique' a b)
