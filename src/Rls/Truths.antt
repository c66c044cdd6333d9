-- ===== src/Rls/Truths.antt =====
-- The three-valued conditions of the policies, with errors: when one holds and when it is defined.
use alma_lead_management_ser.Common.{
  ℕ, ◌≡◌, ◌≢◌, ◌⊎◌, ◌↔◌, Bool, true, Option, none, some, Text, text_eq_iff, arith,
}
use alma_lead_management_ser.Rls.{
  Truth, holds, fails, raises, truth, and_truth, or_truth, Casted, value, null, invalid, equals_uid,
  equals_text,
}

pub equals_text-holds : (o : Option Text) (t : Text) → (equals_text o t ≡ holds) ↔ (o ≡ some t)
equals_text-holds none t = ground arith
equals_text-holds (some r) t = ground (arith, text_eq_iff r t)

pub or_truth-holds :
    (a b : Truth)
    → a ≢ raises
    → b ≢ raises
    → (or_truth a (or_truth b fails) ≡ holds) ↔ ((a ≡ holds) ⊎ (b ≡ holds))
or_truth-holds a b h k = ground arith

pub or_truth-defined :
    (a b : Truth) → a ≢ raises → b ≢ raises → or_truth a (or_truth b fails) ≢ raises
or_truth-defined a b h k = ground arith

pub equals_uid-holds : (id : ℕ) (v : Casted) → (equals_uid id v ≡ holds) ↔ (v ≡ value id)
equals_uid-holds id (value k) = ground arith
equals_uid-holds id null = ground arith
equals_uid-holds id invalid = ground arith

pub equals_uid-defined : (id : ℕ) (v : Casted) → v ≢ invalid → equals_uid id v ≢ raises
equals_uid-defined id v h = ground arith

pub and_truth-holds : (a b : Truth) → (and_truth a b ≡ holds) ↔ ((a ≡ holds) × (b ≡ holds))
and_truth-holds a b = ground arith

pub truth-holds : (b : Bool) → (truth b ≡ holds) ↔ (b ≡ true)
truth-holds b = ground arith

pub and_truth-defined : (a : Truth) (b : Bool) → a ≢ raises → and_truth a (truth b) ≢ raises
and_truth-defined a b h = ground arith

pub equals_text-defined : (o : Option Text) (t : Text) → equals_text o t ≢ raises
equals_text-defined none t = ground arith
equals_text-defined (some r) t = ground arith

pub or_truth-raises : (a b : Truth) → a ≢ raises → b ≢ raises → or_truth a b ≢ raises
or_truth-raises a b h k = ground arith

pub and_truth-raises : (a b : Truth) → a ≢ raises → b ≢ raises → and_truth a b ≢ raises
and_truth-raises a b h k = ground arith

pub or_truth-cases : (a b : Truth) → or_truth a b ≡ holds → (a ≡ holds) ⊎ (b ≡ holds)
or_truth-cases a b h = ground arith

pub or_truth-here : (a b : Truth) → a ≡ holds → b ≢ raises → or_truth a b ≡ holds
or_truth-here a b h k = ground arith

pub or_truth-there : (a b : Truth) → a ≢ raises → b ≡ holds → or_truth a b ≡ holds
or_truth-there a b h k = ground arith

pub or_truth-fails : (a : Truth) → (or_truth a fails ≡ holds) ↔ (a ≡ holds)
or_truth-fails a = ground arith

pub and_truth-fails : (a : Truth) → and_truth a fails ≢ holds
and_truth-fails a = ground arith
