-- ===== src/Database/Memory.antt =====
-- A table in memory: a list of rows with distinct keys. It meets the laws of the interface.
pub mod Rows
pub mod Sorting
use alma_lead_management_ser.Common.{
  ℕ, ◌+◌, ◌≤◌, ◌≡◌, ◌≢◌, ◌⊎◌, Bool, true, false, Option, none, some, List, [], ◌∷◌, map, ◌==◌,
  if◌then◌else◌, length, take, drop, length-take, All-take, All-drop, All, select, arith, refl,
  Bool-cases, ap, subst, sym, not, ◌∙◌,
}
use mathlib.Core.Option
use alma_lead_management_ser.Database.{Has, Distinct, Descending, Table, IsTable}
use Rows.{
  rows_get, clashes, clashes-All, Has-rows_get, id-rows_get, rows_get-All, All-select, Has-select,
  rows_get-replace, rows_get-replace_all, rows_get-remove, replace, replace_all, Distinct-select,
  map-replace, map-replace_all,
}
use alma_lead_management_ser.Database.Members.{All-imp, Has-All}
use Sorting.{sort, sort-Descending, sort-Distinct, All-sort, Has-sort, length-sort}
use mathlib.Core.Bool.{false≢true}

no_clash :
    {Row : Type 0} (clash : Row → Row → Bool) (r : Row) (l : List Row)
    → All (λ q. clash r q ≡ false) l
    → clashes clash r l ≡ false
no_clash clash r [] h = refl
no_clash clash r (q ∷ l) h = ground (arith, no_clash clash r l h.1)

module _ {Row : Type 0} (id : Row → ℕ) (clash : Row → Row → Bool) where
  abbrev Rows : Type 0
  Rows = (l : List Row) × Distinct (map id l)

  -- Two rows with one key always clash.
  abbrev pub KeepsKeys : Type 0
  KeepsKeys = (r q : Row) → id r ≡ id q → clash r q ≡ true

  pub distinct_key :
      KeepsKeys
      → (r : Row) (l : List Row) → clashes clash r l ≡ false
      → All (λ y. id r ≢ y) (map id l)
  distinct_key keys r [] h = tt
  distinct_key keys r (q ∷ l) h =
      (λ e. ground (arith, keys r q e), distinct_key keys r l (ground arith))

  module _ (keys : KeepsKeys) where
    abbrev add_row : (r : Row) (s : Rows) (b : Bool) → clashes clash r s.0 ≡ b → Option Rows
    add_row r s true e = none
    add_row r s false e = some (r ∷ s.0, (distinct_key keys r s.0 e, s.1))

    abbrev put_row : Row → Rows → Option Rows
    put_row r s = add_row r s (clashes clash r s.0) refl

    abbrev pub memory : Table id
    memory = record {
      Store = Rows;
      get = λ k s. rows_get id k s.0;
      find = λ p s. select p s.0;
      order = λ p key s. sort key (select p s.0);
      page = λ p key limit offset s. take limit (drop offset (sort key (select p s.0)));
      count = λ p s. length (select p s.0);
      insert = put_row;
      update = λ r s. (replace id r s.0, rw (map-replace id r s.0) s.1);
      update_all = λ f s. (replace_all id f s.0, rw (map-replace_all id f s.0) s.1);
      delete = λ j s.
          (select (λ r. not (id r == j)) s.0, Distinct-select id (λ r. not (id r == j)) s.0 s.1);
    }

    get-add_row :
        (k : ℕ) (r : Row) (s s' : Rows) (b : Bool) (e : clashes clash r s.0 ≡ b)
        → add_row r s b e ≡ some s'
        → rows_get id k s'.0 ≡ (if k == id r then some r else rows_get id k s.0)
    get-add_row k r s s' true e h = cc
    get-add_row k r s s' false e h =
        ap (λ (t : Rows). rows_get id k t.0) (sym (Option.some-injective _ _ h))

    add_row_unique :
        (k : ℕ) (r q : Row) (s s' : Rows) (b : Bool) (e : clashes clash r s.0 ≡ b)
        → add_row r s b e ≡ some s'
        → rows_get id k s.0 ≡ some q
        → clash r q ≡ false
    add_row_unique k r q s s' true e h found = cc
    add_row_unique k r q s s' false e h found =
        Has-All (λ y. clash r y ≡ false) q s.0 (Has-rows_get id k s.0 q found)
          (clashes-All clash r s.0 e)

    add_row-some :
        (r : Row) (s : Rows) (b : Bool) (e : clashes clash r s.0 ≡ b)
        → ((k : ℕ) (q : Row) → rows_get id k s.0 ≡ some q → clash r q ≡ false)
        → (s' : Rows) × (add_row r s b e ≡ some s')
    add_row-some r s true e h = absurd (false≢true (sym (no_clash clash r s.0 found) ∙ e))
      where
        found : All (λ q. clash r q ≡ false) s.0
        found = All-imp (λ q got. h (id q) q got) s.0 (rows_get-All id s.0 s.1)
    add_row-some r s false e h = (_, refl)

    -- The laws hold.
    pub memory-IsTable : IsTable memory clash
    memory-IsTable = record {
      id-get = λ k s r h. id-rows_get id k s.0 r h;
      find-All = λ p s. All-select _ p s.0 (rows_get-All id s.0 s.1);
      Has-find = λ p k s r h t. Has-select p r s.0 (Has-rows_get id k s.0 r h) t;
      find-Distinct = λ p s. Distinct-select id p s.0 s.1;
      order-Descending = λ p key s. sort-Descending key (select p s.0);
      order-All =
          λ p key s. All-sort key _ (select p s.0) (All-select _ p s.0 (rows_get-All id s.0 s.1));
      Has-order = λ p key k s r h t.
          Has-sort key r (select p s.0) (Has-select p r s.0 (Has-rows_get id k s.0 r h) t);
      order-Distinct =
          λ p key s. sort-Distinct key id (select p s.0) (Distinct-select id p s.0 s.1);
      page_length = λ p key limit offset s.
          omega (arith, length-take limit (drop offset (sort key (select p s.0))));
      page-All = λ p key limit offset s. All-take _ limit (drop offset (sort key (select p s.0))) (
          All-drop _ offset (sort key (select p s.0))
            (All-sort key _ (select p s.0) (All-select _ p s.0 (rows_get-All id s.0 s.1))));
      page-eq-take-drop = λ p key limit offset s total. refl;
      count-eq-length = λ p key s. sym (length-sort key (select p s.0));
      get-insert = λ k r s s' h. get-add_row k r s s' (clashes clash r s.0) refl h;
      insert-unique =
          λ k r q s s' h found. add_row_unique k r q s s' (clashes clash r s.0) refl h found;
      insert-some = λ r s h. add_row-some r s (clashes clash r s.0) refl h;
      get-update = λ k r s. rows_get-replace id k r s.0;
      get-update_all = λ k f s h. rows_get-replace_all id k f s.0 h;
      get-delete = λ k j s. rows_get-remove id k j s.0;
    }
