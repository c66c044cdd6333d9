-- ===== src/Migrations/Chain.antt =====
-- Up the chain of revisions and down again, as Alembic runs them: each revision after the one that it
-- names.
use alma_lead_management_ser.Common.{
  ℕ, zero, suc, ◌+◌, ◌≡◌, refl, ap, ◌∙◌, sym, Option, none, some, List, [], ◌∷◌, map, take, All,
  true, false,
}
use native.Mathlib.Nat.{zero-add, suc-add}
use alma_lead_management_ser.Migrations.{
  Schema, SqlTable, Op, set_granted, allowed, effect, migrate,
}
use alma_lead_management_ser.Migrations.Revisions.{
  Revision, revisions, upgrade_001, upgrade_002, upgrade_003, upgrade_004, downgrade_004,
}
use alma_lead_management_ser.Migrations.Steps.{
  Fresh, Ungranted, effects, up_001, up_002, up_003, up_004, up_005, up_006, down_001, down_002,
  down_003, down_004, down_005, down_006,
}

abbrev nth : ℕ → List Revision → Option Revision
nth n [] = none
nth zero (r ∷ rs) = some r
nth (suc n) (r ∷ rs) = nth n rs

-- The operations up to the n-th revision and those back from it; none past the last one.
abbrev pub up_ops : ℕ → List Op
up_ops n = elim (nth n revisions) [ none ↦ [] | some r ↦ r.upgrade ]

abbrev pub down_ops : ℕ → List Op
down_ops n = elim (nth n revisions) [ none ↦ [] | some r ↦ r.downgrade ]

abbrev pub and_then : Option Schema → (Schema → Option Schema) → Option Schema
and_then none f = none
and_then (some s) f = f s

-- `alembic upgrade`: the first `n` revisions.
unfoldable pub upgrade_to : ℕ → Schema → Option Schema
upgrade_to zero s = some s
upgrade_to (suc n) s = and_then (upgrade_to n s) (migrate (up_ops n))

-- `alembic downgrade` by `m` revisions, from revision `m + n` down to revision `n`.
unfoldable pub downgrade_by : (m n : ℕ) → Schema → Option Schema
downgrade_by zero n s = some s
downgrade_by (suc m) n s = and_then (migrate (down_ops (m + n)) s) (downgrade_by m n)

-- The database at a revision.
unfoldable pub at : ℕ → Schema → Schema
at zero s = s
at (suc n) s = effects (up_ops n) (at n s)

up_at : (n : ℕ) (s : Schema) → Fresh s → migrate (up_ops n) (at n s) ≡ some (at (suc n) s)
unfolding at revisions
up_at zero s h = up_001 s h
up_at (suc zero) s h = up_002 s h
up_at (suc (suc zero)) s h = up_003 s h
up_at (suc (suc (suc zero))) s h = up_004 s h
up_at (suc (suc (suc (suc zero)))) s h = up_005 s
up_at (suc (suc (suc (suc (suc zero))))) s h = up_006 s
up_at (suc (suc (suc (suc (suc (suc n)))))) s h = unfold migrate effects in refl

down_at :
    (n : ℕ) (s : Schema)
    → Fresh s
    → Ungranted s
    → migrate (down_ops n) (at (suc n) s) ≡ some (at n s)
unfolding at revisions
down_at zero s h g = down_001 s h
down_at (suc zero) s h g = down_002 s
down_at (suc (suc zero)) s h g = down_003 s
down_at (suc (suc (suc zero))) s h g = down_004 s h g
down_at (suc (suc (suc (suc zero)))) s h g = down_005 s
down_at (suc (suc (suc (suc (suc zero))))) s h g = down_006 s
down_at (suc (suc (suc (suc (suc (suc n)))))) s h g = unfold migrate effects in refl

-- On a database that has nothing of the service no upgrade is ever refused.
pub upgrade_to-at : (n : ℕ) (s : Schema) → Fresh s → upgrade_to n s ≡ some (at n s)
unfolding upgrade_to at
upgrade_to-at zero s h = refl
upgrade_to-at (suc n) s h =
    ap (λ o. and_then o (migrate (up_ops n))) (upgrade_to-at n s h) ∙ up_at n s h

pub downgrade_by-at :
    (m n : ℕ) (s : Schema) → Fresh s → Ungranted s → downgrade_by m n (at (m + n) s) ≡ some (at n s)
unfolding downgrade_by
downgrade_by-at zero n s h g = rw zero-add refl
downgrade_by-at (suc m) n s h g =
    let back : migrate (down_ops (m + n)) (at (suc m + n) s) ≡ some (at (m + n) s) =
      rw suc-add (down_at (m + n) s h g) in
    ap (λ o. and_then o (downgrade_by m n)) back ∙ downgrade_by-at m n s h g

-- On a database that has the role alma_app, no relation and no type with a name of the service's,
-- and no privileges of the role, neither given nor by default, every upgrade goes through, to whichever
-- revision, and a downgrade from it to an earlier revision goes through as well and leaves exactly
-- what the upgrade to the earlier revision would have left; from any revision down to none, that is
-- the database before.
pub downgrade_by-upgrade_to :
    (m n : ℕ) (s : Schema)
    → Fresh s
    → Ungranted s
    → ((d : Schema) × (upgrade_to (m + n) s ≡ some d))
      × (and_then (upgrade_to (m + n) s) (downgrade_by m n) ≡ upgrade_to n s)
downgrade_by-upgrade_to m n s h g = (
  (at (m + n) s, upgrade_to-at (m + n) s h),
  ap (λ o. and_then o (downgrade_by m n)) (upgrade_to-at (m + n) s h)
      ∙ (downgrade_by-at m n s h g ∙ sym (upgrade_to-at n s h)),
)

ungranted : (ts : List SqlTable) → All (λ t. t.granted ≡ false) (map (set_granted false) ts)
ungranted [] = tt
ungranted (t ∷ ts) = (refl, ungranted ts)

down_004_revokes :
    (s : Schema)
    → Fresh s
    → let d = effects downgrade_004 (at 4 s) in
      (downgrade_by 1 3 (at 4 s) ≡ some d) × All (λ t. t.granted ≡ false) d.tables
unfolding at revisions downgrade_by migrate effects upgrade_001 upgrade_002 upgrade_003 upgrade_004
    downgrade_004 allowed effect
down_004_revokes s h = (rw (h.has_role) refl, ungranted (at 4 s).tables)

granted_at_003 :
    (s : Schema)
    → s.granted_by_default ≡ true
    → map (λ t. t.granted) (take 3 (at 3 s).tables) ≡ true ∷ true ∷ true ∷ []
unfolding at revisions effects upgrade_001 upgrade_002 upgrade_003 effect
granted_at_003 s e = rw (e) refl

-- Where the privileges are given by default, as docker/init-db.sql arranges it, the role alma_app has
-- them on all three tables at revision 003. Revision 004 and its downgrade go through, and after them
-- the role has its privileges on no table.
pub downgrade_by-revokes :
    (s : Schema)
    → Fresh s
    → s.granted_by_default ≡ true
    → (d : Schema) × (before : Schema) × (and_then (upgrade_to 4 s) (downgrade_by 1 3) ≡ some d)
      × (upgrade_to 3 s ≡ some before)
      × (map (λ t. t.granted) (take 3 before.tables) ≡ true ∷ true ∷ true ∷ [])
      × All (λ t. t.granted ≡ false) d.tables
downgrade_by-revokes s h e =
    let (back, revoked) = down_004_revokes s h in
    (
      effects downgrade_004 (at 4 s),
      at 3 s,
      ap (λ o. and_then o (downgrade_by 1 3)) (upgrade_to-at 4 s h) ∙ back,
      upgrade_to-at 3 s h,
      granted_at_003 s e,
      revoked,
    )
