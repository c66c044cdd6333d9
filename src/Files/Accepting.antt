-- ===== src/Files/Accepting.antt =====
-- Which uploads are stored, and what the others get.
use alma_lead_management_ser.Common.{
  Bool, Bool-cases, List, Option, ◌≢◌, ◌∙◌, ◌++◌, truthy, codes, text_eq, ap₂, subst, sym, ℕ, ◌*◌,
  ◌≤◌, ◌≡◌, ◌⊎◌, inl, inr, refl, none, some, [], ◌∷◌, true, false, length, if◌then◌else◌, arith,
  text_eq_iff, Text, take, starts_with, starts_with-take, ◌↔◌, Option-cases,
}
use alma_lead_management_ser.Results.{Result, ok, err, Error}
use alma_lead_management_ser.Storage.{
  Bytes, StorageSettings, StorageBackend, local, s3, build_key, Entry, Directory, mkdir, write_file,
  S3Request, join_path, put_object, get_storage_backend, local_save, s3_save,
}
use alma_lead_management_ser.Files.{
  UploadFile, Files, save_resume, get_backend, backend_save, allowed_content_type,
  detect_mime_from_magic, mismatch, magic_read_size, pdf_type, docx_type,
}
use alma_lead_management_ser.Files.Reading.{uploaded, read_chunks_lem}

-- The two signatures.
abbrev pdf_magic : Bytes
pdf_magic = b'%' ∷ b'P' ∷ b'D' ∷ b'F' ∷ []

abbrev docx_magic : Bytes
docx_magic = b'P' ∷ b'K' ∷ 3 ∷ 4 ∷ []

-- The bytes begin with the signature of the type.
abbrev pub HasMagic : Bytes → Text → Type 0
HasMagic c t =
    ((t ≡ pdf_type) × (starts_with c pdf_magic ≡ true))
    ⊎ ((t ≡ docx_type) × (starts_with c docx_magic ≡ true))

-- An upload whose size and first bytes are as they should be for its declared type.
abbrev pub Acceptable : (max_bytes : ℕ) → UploadFile → Type 0
Acceptable max_bytes file =
    (length (uploaded file.reads) ≤ max_bytes)
    × ((t : Text) × (file.content_type ≡ some t) × HasMagic (uploaded file.reads) t)

detect_lem :
    (c : Bytes)
    → detect_mime_from_magic (take magic_read_size c) ≡ (
        if starts_with c pdf_magic
        then some pdf_type
        else if starts_with c docx_magic
        then some docx_type
        else none)
unfolding detect_mime_from_magic
detect_lem c =
    ap₂ (λ (a b : Bool). if a then some pdf_type else if b then some docx_type else none)
      (starts_with-take pdf_magic c) (starts_with-take docx_magic c)

-- No file has both.
magic_apart : (c : Bytes) → starts_with c pdf_magic ≡ true → starts_with c docx_magic ≡ false
magic_apart [] h = refl
magic_apart (x ∷ c) h = ground arith

one_of_two_iff :
    (p d t : Text) (a b : Bool)
    → (a ≡ true → b ≡ false)
    → (mismatch (if a then some p else if b then some d else none) (some t) ≡ false)
      ↔ (((t ≡ p) × (a ≡ true)) ⊎ ((t ≡ d) × (b ≡ true)))
one_of_two_iff p d t true b h = ground (arith, text_eq_iff p t)
one_of_two_iff p d t false true h = ground (arith, text_eq_iff d t)
one_of_two_iff p d t false false h = ground arith

-- The test on the first bytes, as a property.
matches_iff :
    (c : Bytes) (t : Text)
    → (mismatch (detect_mime_from_magic (take magic_read_size c)) (some t) ≡ false) ↔ HasMagic c t
matches_iff c t =
    subst (λ d. (mismatch d (some t) ≡ false) ↔ HasMagic c t) (sym (detect_lem c))
      (one_of_two_iff pdf_type docx_type t (starts_with c pdf_magic) (starts_with c docx_magic)
        (magic_apart c))

allowed_of_magic : (c : Bytes) (t : Text) → HasMagic c t → allowed_content_type (some t) ≡ true
allowed_of_magic c t (inl (e, h)) = ground (arith, text_eq_iff t pdf_type)
allowed_of_magic c t (inr (e, h)) = ground (arith, text_eq_iff t docx_type)

-- What a file of the upload directory holds.
abbrev entry_contents : Text → List Entry → Option Bytes
entry_contents name [] = none
entry_contents name (e ∷ es) =
    if text_eq e.name name then some e.contents else entry_contents name es

abbrev pub contents_of : Text → Directory → Option Bytes
contents_of name none = none
contents_of name (some es) = entry_contents name es

-- What a backend has made of a write, seen from outside: the reference, and where the bytes are, next
-- to the directory and the requests of before.
abbrev pub Stored :
    StorageBackend
    → (contents : Bytes) → (key : Text) → Directory
    → List S3Request
    → Result Text
    → Files
    → Type 0
Stored (local upload_dir) contents key directory requests r files' =
    (r ≡ ok (join_path upload_dir key))
    × (contents_of key files'.directory ≡ some contents)
    × ((name : Text) → name ≢ key → contents_of name files'.directory ≡ contents_of name directory)
    × (files'.requests ≡ requests)
Stored (s3 b region endpoint) contents key directory requests r files' =
    let s3_key = if truthy b.prefix then b.prefix ++ (codes "/" ++ key) else key in
    (r ≡ ok s3_key)
    × (files'.requests ≡ put_object b.bucket s3_key contents ∷ requests)
    × (files'.directory ≡ directory)

entry_contents-write_file :
    (name : Text) (body : Bytes) (now : ℕ) (es : List Entry)
    → entry_contents name (write_file name body now es) ≡ some body
entry_contents-write_file name body now [] = ground (arith, text_eq_iff name name)
entry_contents-write_file name body now (e ∷ es) = elim (Bool-cases (text_eq e.name name)) [
  | inl h ↦ ground arith
  | inr h ↦ ground (arith, entry_contents-write_file name body now es)
]

entry_contents-other :
    (key name : Text) (body : Bytes) (now : ℕ) (es : List Entry)
    → name ≢ key
    → entry_contents name (write_file key body now es) ≡ entry_contents name es
entry_contents-other key name body now [] other =
    ground (arith, other, λ (e : key ≡ name). other (sym e), text_eq_iff key name)
entry_contents-other key name body now (e ∷ es) other = elim (Bool-cases (text_eq e.name key)) [
  | inl h ↦
      let differs : text_eq e.name name ≡ false = elim (Bool-cases (text_eq e.name name)) [
        | inl q ↦
            absurd (other (sym ((text_eq_iff e.name name).0 q) ∙ (text_eq_iff e.name key).0 h))
        | inr q ↦ q
      ] in
      rw (h, differs) refl
  | inr h ↦ ground (arith, entry_contents-other key name body now es other)
]

contents_of-mkdir :
    (name : Text) (d : Directory) → entry_contents name (mkdir d) ≡ contents_of name d
contents_of-mkdir name none = refl
contents_of-mkdir name (some es) = refl

backend_save-Stored :
    (now : ℕ) (b : StorageBackend) (contents : Bytes) (key : Text) (files : Files)
    → files.refusal ≡ none
    → let (r, files') = backend_save now b contents key files in
      Stored b contents key files.directory files.requests r files'
      × (files'.backend ≡ files.backend)
unfolding local_save s3_save
backend_save-Stored now (local upload_dir) contents key files takes = rw takes (
  (
    refl,
    entry_contents-write_file key contents now (mkdir files.directory),
    (λ name other.
        entry_contents-other key name contents now (mkdir files.directory) other
        ∙ contents_of-mkdir name files.directory),
    refl,
  ),
  refl,
)
backend_save-Stored now (s3 b region endpoint) contents key files takes =
    rw takes ((refl, refl, refl), refl)

module _ (settings : StorageSettings) (mb : ℕ) (uuid : Text) (now : ℕ) (file : UploadFile)
    (files : Files) where
  -- The backend that the process uses: the one of an earlier call, or that of the settings.
  abbrev pub InUse : StorageBackend → Type 0
  InUse b =
      (files.backend ≡ some b) ⊎ ((files.backend ≡ none) × (get_storage_backend settings ≡ ok b))

  -- An acceptable upload reaches the backend, which the module keeps from then on.
  save_resume_accepted :
      (b : StorageBackend)
      → Acceptable (mb * 1024 * 1024) file
      → InUse b
      → save_resume settings mb uuid now file files
        ≡ backend_save now b
            (uploaded file.reads)
            (build_key uuid file.filename)
            (record files { backend = some b })
  unfolding save_resume get_backend
  save_resume_accepted b (small, (t, q, m)) used = ground (
    arith,
    used,
    allowed_of_magic (uploaded file.reads) t m,
    read_chunks_lem (mb * 1024 * 1024) file.reads,
    (matches_iff (uploaded file.reads) t).1 m,
  )

  -- An upload of at most the allowed size whose declared type is PDF or DOCX, and whose first bytes
  -- are the signature of that type, is saved where the storage takes the write, be it the first of
  -- the process or a later one. The local backend returns the path of its key in the upload directory,
  -- and afterwards the file of this name has exactly the uploaded bytes, and every other name what it
  -- had. S3 gets one more request, which puts exactly these bytes under the key behind the prefix,
  -- and this is the reference that is returned. The backend stays the one in use.
  pub save_resume-stores :
      (b : StorageBackend)
      → Acceptable (mb * 1024 * 1024) file
      → InUse b
      → files.refusal ≡ none
      → let (r, files') = save_resume settings mb uuid now file files in
        Stored b
          (uploaded file.reads)
          (build_key uuid file.filename)
          files.directory
          files.requests
          r
          files'
        × (files'.backend ≡ some b)
  save_resume-stores b accepted used takes =
      let key = build_key uuid file.filename in
      subst
        (λ (p : Result Text × Files).
          Stored b (uploaded file.reads) key files.directory files.requests p.0 p.1
          × (p.1.backend ≡ some b))
        (sym (save_resume_accepted b accepted used))
        (backend_save-Stored now b (uploaded file.reads) key (record files { backend = some b })
          takes)

  -- Where `save_resume` returns a reference, the upload has at most the allowed size, its declared
  -- type is PDF or DOCX, and its first bytes are the signature of that type.
  pub save_resume-Acceptable :
      (ref : Text)
      → (save_resume settings mb uuid now file files).0 ≡ ok ref
      → Acceptable (mb * 1024 * 1024) file
  unfolding save_resume get_backend
  save_resume-Acceptable ref h = elim (Option-cases file.content_type) [
    | inl n ↦ absurd (ground arith)
    | inr (t, q) ↦
        let read = read_chunks_lem (mb * 1024 * 1024) file.reads in
        let m = (matches_iff (uploaded file.reads) t).0 in
        (ground (arith, read), (t, q, ground (arith, read, m)))
  ]

  -- Where an error is returned and the storage takes writes, the upload directory, the bucket and
  -- the module's backend are as before.
  pub save_resume-refuses :
      (e : Error)
      → files.refusal ≡ none
      → (save_resume settings mb uuid now file files).0 ≡ err e
      → (save_resume settings mb uuid now file files).1 ≡ files
  unfolding save_resume get_backend
  save_resume-refuses e k h = ground arith
