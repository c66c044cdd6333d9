-- ===== src/Storage/Listing.antt =====
-- What the local backend lists.
use alma_lead_management_ser.Common.{
  Bool, ◌≡◌, ◌⊎◌, ◌↔◌, ap, ◌∙◌, subst, inl, inr, true, some, List, [], ◌∷◌, map, select, arith,
  Bool-cases,
}
use alma_lead_management_ser.Database.{Has}
use alma_lead_management_ser.Database.Members.{Has-map, Has-map_inv}
use alma_lead_management_ser.Storage.{
  Entry, FileInfo, place_entry, sort_entries, is_resume, file_info, local_list_files,
}
use alma_lead_management_ser.Storage.Paths.{text_leb}

Has-place_entry : (x e : Entry) (fs : List Entry) → Has x (place_entry e fs) ↔ ((x ≡ e) ⊎ Has x fs)
Has-place_entry x e [] = (λ h. h, λ h. h)
Has-place_entry x e (f ∷ fs) = elim (Bool-cases (text_leb e.name f.name)) [
  | inl first ↦ rw first (λ h. h, λ h. h)
  | inr later ↦
      let (to, from) = Has-place_entry x e fs in rw later (ground (arith, to), ground (arith, from))
]

Has-sort_entries : (x : Entry) (es : List Entry) → Has x (sort_entries es) ↔ Has x es
Has-sort_entries x [] = (λ h. h, λ h. h)
Has-sort_entries x (e ∷ es) =
    let (to, from) = Has-place_entry x e (sort_entries es) in
    let (to', from') = Has-sort_entries x es in
    (ground (arith, to, to'), ground (arith, from, from'))

passes : (p : Entry → Bool) (x y : Entry) → x ≡ y → p y ≡ true → p x ≡ true
passes p x y e h = ap p e ∙ h

Has-select :
    (p : Entry → Bool) (x : Entry) (es : List Entry)
    → Has x (select p es) ↔ (Has x es × (p x ≡ true))
Has-select p x [] = (λ h. absurd h, λ h. absurd h.0)
Has-select p x (e ∷ es) =
    let (to, from) = Has-select p x es in
    elim (Bool-cases (p e)) [
      | inl kept ↦ rw kept (ground (arith, to, passes p x e), ground (arith, from))
      | inr dropped ↦ rw dropped (ground (arith, to), ground (arith, from, λ (q : x ≡ e). ap p q))
    ]

-- A file is listed, with its name, size and time, exactly when the directory holds a file whose suffix is
-- .pdf or .docx, in whatever case: what else the directory holds is left out.
pub local_list_files_iff :
    (entries : List Entry) (info : FileInfo)
    → Has info (local_list_files (some entries))
      ↔ ((e : Entry) × Has e entries × (is_resume e ≡ true) × (file_info e ≡ info))
unfolding local_list_files
local_list_files_iff entries info = (
  λ h.
      let (e, m, q) = Has-map_inv file_info info (select is_resume (sort_entries entries)) h in
      let (there, kept) = (Has-select is_resume e (sort_entries entries)).0 m in
      (e, (Has-sort_entries e entries).0 there, kept, q),
  λ (e, there, kept, q).
      subst (λ (i : FileInfo). Has i (map file_info (select is_resume (sort_entries entries)))) q
        (Has-map file_info e (select is_resume (sort_entries entries)) (
          (Has-select is_resume e (sort_entries entries)).1
            ((Has-sort_entries e entries).1 there, kept))),
)
