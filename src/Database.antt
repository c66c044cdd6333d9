-- ===== src/Database.antt =====
-- The database as the services use it through SQLAlchemy: an interface. A table is known by the
-- rows that its statements return; the laws are those of SQL with a primary key and the unique
-- constraints that the models declare.
pub mod Memory
pub mod Paging
pub mod Laws
pub mod Members
use alma_lead_management_ser.Common.{
  ℕ, ◌+◌, ◌≤◌, ◌≡◌, ◌≢◌, ◌⊎◌, Bool, true, false, Option, none, some, List, [], ◌∷◌, map, ◌==◌,
  if◌then◌else◌, length, take, drop, All,
}
use mathlib.Core.Option

-- Membership with its place.
abbrev pub Has : {A : Type 0} → A → List A → Type 0
Has x [] = ⊥
Has x (y ∷ ys) = (x ≡ y) ⊎ Has x ys

-- No number stands in the list twice.
abbrev pub Distinct : List ℕ → Type 0
Distinct [] = Unit
Distinct (x ∷ xs) = All (λ y. x ≢ y) xs × Distinct xs

-- The keys do not increase along the list.
abbrev pub Descending {ℓ} : {A : Type ℓ} → (A → ℕ) → List A → Type 0
Descending key [] = Unit
Descending key (x ∷ xs) = All (λ y. key y ≤ key x) xs × Descending key xs

pub record Table {Row : Type 0} (id : Row → ℕ) : Type 1 where
  pub Store : Type 0
  -- `session.get(Model, k)`
  pub get : ℕ → Store → Option Row
  -- `SELECT … WHERE p`
  pub find : (Row → Bool) → Store → List Row
  -- `SELECT … WHERE p ORDER BY key DESC`
  pub order : (Row → Bool) → (Row → ℕ) → Store → List Row
  -- the same with `LIMIT limit OFFSET offset`
  pub page : (Row → Bool) → (Row → ℕ) → (limit offset : ℕ) → Store → List Row
  -- `SELECT count(id) … WHERE p`
  pub count : (Row → Bool) → Store → ℕ
  -- `INSERT`, committed; `none` is an IntegrityError
  pub insert : Row → Store → Option Store
  -- `UPDATE` of the row with the same key, committed
  pub update : Row → Store → Store
  -- `UPDATE` of every row
  pub update_all : (Row → Row) → Store → Store
  -- `DELETE` of the row with the key, committed
  pub delete : ℕ → Store → Store

-- No two rows that pass `p` have the same key.
abbrev pub NoTies :
    {Row : Type 0} → {id : Row → ℕ} → (T : Table id) → (Row → Bool) → (Row → ℕ) → T.Store → Type 0
NoTies {Row} T p key s =
    (j k : ℕ) (r q : Row)
    → T.get j s ≡ some r
    → T.get k s ≡ some q
    → p r ≡ true
    → p q ≡ true
    → key r ≡ key q
    → j ≡ k

-- `clash r q` says that a constraint forbids the rows `r` and `q` to stand in one table.
pub record IsTable {Row : Type 0} {id : Row → ℕ} (T : Table id) (clash : Row → Row → Bool)
    : Type 0 where
  pub id-get : (k : ℕ) (s : T.Store) (r : Row) → T.get k s ≡ some r → id r ≡ k
  pub find-All :
      (p : Row → Bool) (s : T.Store)
      → All (λ r. (T.get (id r) s ≡ some r) × (p r ≡ true)) (T.find p s)
  pub Has-find :
      (p : Row → Bool) (k : ℕ) (s : T.Store) (r : Row)
      → T.get k s ≡ some r
      → p r ≡ true
      → Has r (T.find p s)
  pub find-Distinct : (p : Row → Bool) (s : T.Store) → Distinct (map id (T.find p s))
  pub order-Descending :
      (p : Row → Bool) (key : Row → ℕ) (s : T.Store) → Descending key (T.order p key s)
  pub order-All :
      (p : Row → Bool) (key : Row → ℕ) (s : T.Store)
      → All (λ r. (T.get (id r) s ≡ some r) × (p r ≡ true)) (T.order p key s)
  pub Has-order :
      (p : Row → Bool) (key : Row → ℕ) (k : ℕ) (s : T.Store) (r : Row)
      → T.get k s ≡ some r
      → p r ≡ true
      → Has r (T.order p key s)
  pub order-Distinct :
      (p : Row → Bool) (key : Row → ℕ) (s : T.Store) → Distinct (map id (T.order p key s))
  pub page_length :
      (p : Row → Bool) (key : Row → ℕ) (limit offset : ℕ) (s : T.Store)
      → length (T.page p key limit offset s) ≤ limit
  pub page-All :
      (p : Row → Bool) (key : Row → ℕ) (limit offset : ℕ) (s : T.Store)
      → All (λ r. (T.get (id r) s ≡ some r) × (p r ≡ true)) (T.page p key limit offset s)
  -- a window is promised to be one of the whole listing only where the order is total: rows with
  -- equal keys may stand in one order for one window and in another for the next
  pub page-eq-take-drop :
      (p : Row → Bool) (key : Row → ℕ) (limit offset : ℕ) (s : T.Store)
      → NoTies T p key s
      → T.page p key limit offset s ≡ take limit (drop offset (T.order p key s))
  pub count-eq-length :
      (p : Row → Bool) (key : Row → ℕ) (s : T.Store) → T.count p s ≡ length (T.order p key s)
  pub get-insert :
      (k : ℕ) (r : Row) (s s' : T.Store)
      → T.insert r s ≡ some s'
      → T.get k s' ≡ (if k == id r then some r else T.get k s)
  pub insert-unique :
      (k : ℕ) (r q : Row) (s s' : T.Store)
      → T.insert r s ≡ some s'
      → T.get k s ≡ some q
      → clash r q ≡ false
  pub insert-some :
      (r : Row) (s : T.Store)
      → ((k : ℕ) (q : Row) → T.get k s ≡ some q → clash r q ≡ false)
      → (s' : T.Store) × (T.insert r s ≡ some s')
  pub get-update :
      (k : ℕ) (r : Row) (s : T.Store)
      → T.get k (T.update r s) ≡ (if k == id r then Option.map (λ _. r) (T.get k s) else T.get k s)
  pub get-update_all :
      (k : ℕ) (f : Row → Row) (s : T.Store)
      → ((r : Row) → id (f r) ≡ id r)
      → T.get k (T.update_all f s) ≡ Option.map f (T.get k s)
  pub get-delete :
      (k j : ℕ) (s : T.Store) → T.get k (T.delete j s) ≡ (if k == j then none else T.get k s)
