-- ===== src/Database/Members.antt =====
-- Membership with its place, under `All` and `map`.
use alma_lead_management_ser.Common.{◌≡◌, refl, sym, ap, subst, inl, inr, List, [], ◌∷◌, map, All}
use alma_lead_management_ser.Database.{Has}

module _ {A : Type 0} {P Q : A → Type 0} where
  pub All-imp : ((x : A) → P x → Q x) → (xs : List A) → All P xs → All Q xs
  All-imp f [] h = tt
  All-imp f (x ∷ xs) h = (f x h.0, All-imp f xs h.1)

module _ {A : Type 0} (P : A → Type 0) where
  pub Has-All : (x : A) (xs : List A) → Has x xs → All P xs → P x
  Has-All x [] m h = absurd m
  Has-All x (y ∷ ys) (inl e) h = subst P (sym e) h.0
  Has-All x (y ∷ ys) (inr m) h = Has-All x ys m h.1

pub Has-map : {A B : Type 0} (f : A → B) (x : A) (xs : List A) → Has x xs → Has (f x) (map f xs)
Has-map f x [] m = absurd m
Has-map f x (y ∷ ys) (inl e) = inl (ap f e)
Has-map f x (y ∷ ys) (inr m) = inr (Has-map f x ys m)

pub Has-map_inv :
    {A B : Type 0} (f : A → B) (y : B) (xs : List A)
    → Has y (map f xs)
    → (x : A) × Has x xs × (f x ≡ y)
Has-map_inv f y [] m = absurd m
Has-map_inv f y (x ∷ xs) (inl e) = (x, inl refl, sym e)
Has-map_inv f y (x ∷ xs) (inr m) = let (z, mz, e) = Has-map_inv f y xs m in (z, inr mz, e)
