-- ===== src/Leads/Racing/States.antt =====
-- What a call of `update_lead_state` makes of one row, and of a row that another call has changed.
use alma_lead_management_ser.Common.{
  ℕ, ◌≡◌, refl, sym, ap, ◌∙◌, inl, inr, ◌⊎◌, false, ◌&&◌, Option, none, some, if◌then◌else◌, ◌==◌,
  Bool-cases, arith,
}
use alma_lead_management_ser.Models.{User, Lead, LeadState, pending, reached_out, state_eq}
use alma_lead_management_ser.Leads.{with_state}
use alma_lead_management_ser.Leads.Transitions.{IsTracked}
use alma_lead_management_ser.Leads.Racing.{patch, read_as}

-- The column that the UPDATE leaves holds the user's key.
sent_user :
    (read : Option ℕ) (k : ℕ) (row : Option ℕ)
    → (read ≡ some k → row ≡ some k)
    → (if read_as read k then row else some k) ≡ some k
sent_user none k row kept = refl
sent_user (some j) k row kept = elim (Bool-cases (j == k)) [
  | inl e ↦ ground arith
  | inr e ↦ ground arith
]

pub patch-here :
    (now : ℕ) (user : User) (read row : Lead)
    → row.id ≡ read.id
    → (read.state ≡ reached_out → row.state ≡ reached_out)
    → (read.reached_out_by_id ≡ some user.id → row.reached_out_by_id ≡ some user.id)
    → patch now user read row ≡ with_state now reached_out user row
patch-here now user read row same kept kept_user =
    let by = sent_user read.reached_out_by_id user.id row.reached_out_by_id kept_user in
    elim (Bool-cases (state_eq read.state reached_out)) [
      | inl e ↦ ground (arith, by)
      | inr e ↦ ground (arith, by)
    ]

pub patch_id : (now : ℕ) (user : User) (read row : Lead) → (patch now user read row).id ≡ row.id
patch_id now user read row = ground arith

pub still_pending :
    (l : Lead) (s : LeadState)
    → (l.state ≡ reached_out → s ≡ reached_out)
    → s ≡ pending
    → l.state ≡ pending
still_pending l s h e = ground arith

pub state_cases : (s : LeadState) → (s ≡ pending) ⊎ (s ≡ reached_out)
state_cases pending = inl refl
state_cases reached_out = inr refl

-- A state that is not PENDING is REACHED_OUT.
pub forward : (s : LeadState) → (s ≡ pending → ⊥) → s ≡ reached_out
forward pending h = absurd (h refl)
forward reached_out h = refl

pub no_revert :
    (l : Lead) (s : LeadState)
    → (l.state ≡ reached_out → s ≡ reached_out)
    → (state_eq l.state reached_out && state_eq s pending) ≡ false
no_revert l pending h = ground arith
no_revert l reached_out h = ground arith

pub with_state-id :
    (now : ℕ) (s : LeadState) (user : User) (l : Lead) → (with_state now s user l).id ≡ l.id
with_state-id now pending user l = refl
with_state-id now reached_out user l = refl

pub with_state-pending :
    (now : ℕ) (user : User) (l : Lead) → l.state ≡ pending → with_state now pending user l ≡ l
with_state-pending now user l e = ap (λ (st : LeadState). record l { state = st }) (sym e)

pub with_state-idle :
    (now : ℕ) (s : LeadState) (user : User) (l : Lead)
    → s ≡ pending
    → l.state ≡ pending
    → with_state now s user l ≡ l
with_state-idle now s user l e state =
    ap (λ (st : LeadState). with_state now st user l) e ∙ with_state-pending now user l state

pub with_state-state :
    (now : ℕ) (s : LeadState) (user : User) (l : Lead) → (with_state now s user l).state ≡ s
with_state-state now pending user l = refl
with_state-state now reached_out user l = refl

pub with_state-IsTracked :
    (now : ℕ) (s : LeadState) (user : User) (l : Lead)
    → IsTracked l
    → (l.state ≡ reached_out → s ≡ reached_out)
    → IsTracked (with_state now s user l)
with_state-IsTracked now pending user l tracked allowed =
    ((λ e. tracked.0 (still_pending l pending allowed refl)), (λ e. ground arith))
with_state-IsTracked now reached_out user l tracked allowed =
    ((λ e. ground arith), (λ e h. ground arith))

-- A call that marks a lead overwrites all that an earlier call has set.
pub with_state-overwrites :
    (now now' : ℕ) (s s' : LeadState) (user user' : User) (l : Lead)
    → (s' ≡ pending → (s ≡ pending) × (l.state ≡ pending))
    → with_state now' s' user' l ≡ with_state now' s' user' (with_state now s user l)
with_state-overwrites now now' s pending user user' l calm =
    ap (λ (m : Lead). with_state now' pending user' m)
      (sym (with_state-idle now s user l (calm refl).0 (calm refl).1))
with_state-overwrites now now' pending reached_out user user' l calm = refl
with_state-overwrites now now' reached_out reached_out user user' l calm = refl

-- Where a call has let a lead through that was read with the user of a later one, the user stays.
pub with_state-keeps_user :
    (now k : ℕ) (s : LeadState) (user : User) (l : Lead)
    → (l.reached_out_by_id ≡ some k → user.id ≡ k)
    → l.reached_out_by_id ≡ some k
    → (with_state now s user l).reached_out_by_id ≡ some k
with_state-keeps_user now k pending user l same e = e
with_state-keeps_user now k reached_out user l same e = ap (λ j. some j) (same e)
