-- ===== src/Effects/Leads.antt =====
-- Leads over any history.
use alma_lead_management_ser.Common.{
  ℕ, ◌≡◌, refl, sym, ap, ◌∙◌, subst, true, some, arith, ◌==◌, inl, inr, Option-cases, Bool-cases,
}
use mathlib.Core.Option
use alma_lead_management_ser.Models.{Lead, User, LeadState, pending, reached_out, new_lead}
use alma_lead_management_ser.Engine.{
  Engine, IsEngine, Db, delete_user_row, forget_reached_out_by, lead_key, lead_clash,
}
use alma_lead_management_ser.Database.Laws.{get-insert_old, get-update_known}
use alma_lead_management_ser.Leads.{with_state}
use alma_lead_management_ser.Leads.Transitions.{IsTracked, SameProspect}
use alma_lead_management_ser.Effects.{
  Effect, nothing, added_user, changed_user, removed_user, added_lead, moved_lead, added_entry,
  History, here, next,
}

-- A lead at one time and the same lead at a later one: the prospect's data is the same, and it has
-- not gone back from REACHED_OUT.
abbrev pub Follows : Lead → Lead → Type 0
Follows l m = SameProspect l m × (l.state ≡ reached_out → m.state ≡ reached_out)

Follows-refl : (l : Lead) → Follows l l
Follows-refl l = ground arith

Follows-trans : (l m n : Lead) → Follows l m → Follows m n → Follows l n
Follows-trans l m n h k = ground arith

with_state-id :
    (now : ℕ) (s : LeadState) (user : User) (l : Lead) → (with_state now s user l).id ≡ l.id
with_state-id now pending user l = refl
with_state-id now reached_out user l = refl

with_state-Follows :
    (now : ℕ) (s : LeadState) (user : User) (l : Lead)
    → (l.state ≡ reached_out → s ≡ reached_out)
    → Follows l (with_state now s user l)
with_state-Follows now pending user l h = ground arith
with_state-Follows now reached_out user l h = ground arith

with_state-IsTracked :
    (now : ℕ) (s : LeadState) (user : User) (l : Lead)
    → (l.state ≡ reached_out → s ≡ reached_out)
    → IsTracked l
    → IsTracked (with_state now s user l)
with_state-IsTracked now pending user l h t = ground arith
with_state-IsTracked now reached_out user l h t = ground arith

forget-IsTracked : (k : ℕ) (l : Lead) → IsTracked l → IsTracked (forget_reached_out_by k l)
forget-IsTracked k l h = ground arith

module _ (E : Engine) where
  abbrev pub AllTracked : Db E → Type 0
  AllTracked db = (k : ℕ) (l : Lead) → E.leads.get k db.leads ≡ some l → IsTracked l

module _ (E : Engine) (laws : IsEngine E) where
  same_key : (l m : Lead) → lead_key l ≡ lead_key m → lead_clash l m ≡ true
  same_key l m e = ground arith

  -- The lead `l` under the key `k` has a later form in `db`.
  abbrev Continues : ℕ → Lead → Db E → Type 0
  Continues k l db = (m : Lead) × (E.leads.get k db.leads ≡ some m) × Follows l m

  moved-Continues :
      (now n : ℕ) (s : LeadState) (user : User) (k : ℕ) (l m : Lead) (db : Db E)
      → E.leads.get n db.leads ≡ some m
      → (m.state ≡ reached_out → s ≡ reached_out)
      → E.leads.get k db.leads ≡ some l
      → Continues k l (record db { leads = E.leads.update (with_state now s user m) db.leads })
  moved-Continues now n s user k l m db g forward h =
      let moved = with_state now s user m in
      let q =
        get-update_known E.leads laws.leads n k m moved db.leads g (with_state-id now s user m) in
      elim (Bool-cases (k == n)) [
        | inl e ↦
            let same : l ≡ m = ground arith in
            (
              moved,
              q ∙ ground arith,
              subst (λ x. Follows x moved) (sym same) (with_state-Follows now s user m forward),
            )
        | inr e ↦ (l, q ∙ ground arith, Follows-refl l)
      ]

  forgotten-Continues :
      (n k : ℕ) (l : Lead) (db : Db E)
      → E.leads.get k db.leads ≡ some l
      → Continues k l (delete_user_row E n db)
  unfolding delete_user_row
  forgotten-Continues n k l db h = (
    forget_reached_out_by n l,
    laws.leads.get-update_all k (forget_reached_out_by n) db.leads (λ m. refl)
        ∙ ap (Option.map (forget_reached_out_by n)) h,
    ground arith,
  )

  -- The lead under the key `k`, after one step.
  Effect-Follows :
      {db db' : Db E} (k : ℕ) (l : Lead)
      → Effect E db db'
      → E.leads.get k db.leads ≡ some l
      → (m : Lead) × (E.leads.get k db'.leads ≡ some m) × Follows l m
  Effect-Follows k l (nothing e) h = subst (Continues k l) (sym e) (l, h, Follows-refl l)
  Effect-Follows k l (added_user u users i e) h =
      subst (Continues k l) (sym e) (l, h, Follows-refl l)
  Effect-Follows k l (changed_user n u v g id email role e) h =
      subst (Continues k l) (sym e) (l, h, Follows-refl l)
  Effect-Follows {db} k l (removed_user n e) h =
      subst (Continues k l) (sym e) (forgotten-Continues n k l db h)
  Effect-Follows {db} k l (added_lead id now first last mail path leads i e) h =
      subst (Continues k l) (sym e) (
        l,
        get-insert_old E.leads laws.leads same_key k (new_lead id now first last mail path) l
            db.leads leads i h,
        Follows-refl l,
      )
  Effect-Follows {db} k l (moved_lead now n s user m g forward e) h =
      subst (Continues k l) (sym e) (moved-Continues now n s user k l m db g forward h)
  Effect-Follows k l (added_entry a logs i e) h =
      subst (Continues k l) (sym e) (l, h, Follows-refl l)

  moved-AllTracked :
      (now n : ℕ) (s : LeadState) (user : User) (m : Lead) (db : Db E)
      → E.leads.get n db.leads ≡ some m
      → (m.state ≡ reached_out → s ≡ reached_out)
      → AllTracked E db
      → AllTracked E (record db { leads = E.leads.update (with_state now s user m) db.leads })
  moved-AllTracked now n s user m db g forward h k l got =
      let moved = with_state now s user m in
      let q =
        get-update_known E.leads laws.leads n k m moved db.leads g (with_state-id now s user m) in
      elim (Bool-cases (k == n)) [
        | inl e ↦
            let same : moved ≡ l = ground arith in
            subst IsTracked same (with_state-IsTracked now s user m forward (h n m g))
        | inr e ↦ h k l (ground arith)
      ]

  forgotten-AllTracked :
      (n : ℕ) (db : Db E) → AllTracked E db → AllTracked E (delete_user_row E n db)
  unfolding delete_user_row
  forgotten-AllTracked n db h k l got =
      let q = laws.leads.get-update_all k (forget_reached_out_by n) db.leads (λ m. refl) in
      elim (Option-cases (E.leads.get k db.leads)) [
        | inl e ↦ absurd (ground arith)
        | inr (m, e) ↦
            let same : forget_reached_out_by n m ≡ l = ground arith in
            subst IsTracked same (forget-IsTracked n m (h k m e))
      ]

  added-AllTracked :
      (new : Lead) (db : Db E) (leads : E.leads.Store)
      → E.leads.insert new db.leads ≡ some leads
      → IsTracked new
      → AllTracked E db
      → AllTracked E (record db { leads = leads })
  added-AllTracked new db leads i t h k l got =
      let q = laws.leads.get-insert k new db.leads leads i in
      elim (Bool-cases (k == new.id)) [
        | inl e ↦ let same : new ≡ l = ground arith in subst IsTracked same t
        | inr e ↦ h k l (ground arith)
      ]

  Effect-AllTracked : {db db' : Db E} → Effect E db db' → AllTracked E db → AllTracked E db'
  Effect-AllTracked (nothing e) h = subst (AllTracked E) (sym e) h
  Effect-AllTracked (added_user u users i e) h = subst (AllTracked E) (sym e) h
  Effect-AllTracked (changed_user n u v g id email role e) h = subst (AllTracked E) (sym e) h
  Effect-AllTracked {db} (removed_user n e) h =
      subst (AllTracked E) (sym e) (forgotten-AllTracked n db h)
  Effect-AllTracked {db} (added_lead id now first last mail path leads i e) h =
      subst (AllTracked E) (sym e)
        (added-AllTracked (new_lead id now first last mail path) db leads i (ground arith) h)
  Effect-AllTracked {db} (moved_lead now n s user m g forward e) h =
      subst (AllTracked E) (sym e) (moved-AllTracked now n s user m db g forward h)
  Effect-AllTracked (added_entry a logs i e) h = subst (AllTracked E) (sym e) h

  -- In every history of the services a lead that was once stored stays stored under its key, with the
  -- prospect's data unchanged, and it never goes back from REACHED_OUT to PENDING.
  pub History-Follows :
      {db db' : Db E} (k : ℕ) (l : Lead)
      → E.leads.get k db.leads ≡ some l
      → History E db db'
      → (m : Lead) × (E.leads.get k db'.leads ≡ some m) × Follows l m
  History-Follows k l h here = (l, h, Follows-refl l)
  History-Follows k l h (next past e) =
      let (m, hm, f) = History-Follows k l h past in
      let (n, hn, g) = Effect-Follows k m e hm in (n, hn, Follows-trans l m n f g)

  -- In every history each lead that is PENDING carries no contact, and each that is REACHED_OUT
  -- carries the time of its contact, if that was so at the start; the deletion of an account
  -- included.
  pub History-AllTracked : {db db' : Db E} → AllTracked E db → History E db db' → AllTracked E db'
  History-AllTracked h here = h
  History-AllTracked h (next past e) = Effect-AllTracked e (History-AllTracked h past)
