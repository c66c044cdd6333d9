-- ===== src/Files.antt =====
-- app/services/file_service.py: what is accepted as a resume, and where it goes. An upload is what
-- Starlette hands over: its name, its declared type, and what successive calls of `read` return.
pub mod Reading
pub mod Looping
pub mod Accepting
mod Tests
use alma_lead_management_ser.Common.{
  ℕ, ◌+◌, ◌*◌, ◌++◌, Bool, true, false, not, ◌&&◌, ◌||◌, Option, none, some, List, [], ◌∷◌, length,
  take, ltb, if◌then◌else◌, Text, text_eq, truthy, codes, starts_with,
}
use alma_lead_management_ser.Results.{
  Result, ok, err, Error, http, os_error, client_error, Action, pure, lift, gets, ◌>>=◌, ◌>>◌,
  raise_if,
}
use alma_lead_management_ser.Storage.{
  Bytes, Directory, S3Request, StorageBackend, local, s3, StorageSettings, FileInfo, build_key,
  get_storage_backend, local_save, local_url, local_list_files, s3_save, s3_url, s3_list_files,
}

pub record UploadFile : Type 0 where
  pub filename : Option Text
  pub content_type : Option Text
  pub reads : List Bytes

abbrev pub pdf_type : Text
pdf_type = codes "application/pdf"

abbrev pub docx_type : Text
docx_type = codes "application/vnd.openxmlformats-officedocument.wordprocessingml.document"

-- `file.content_type in ALLOWED_CONTENT_TYPES`
abbrev pub allowed_content_type : Option Text → Bool
allowed_content_type none = false
allowed_content_type (some t) = text_eq t pdf_type || text_eq t docx_type

-- `_MAGIC_SIGNATURES`
abbrev pub magic_signatures : List (Bytes × Text)
magic_signatures = (codes "%PDF", pdf_type) ∷ (b'P' ∷ b'K' ∷ 3 ∷ 4 ∷ [], docx_type) ∷ []

-- `max(len(sig) for sig, _ in _MAGIC_SIGNATURES)`
abbrev pub magic_read_size : ℕ
magic_read_size = 4

abbrev pub first_match : Bytes → List (Bytes × Text) → Option Text
first_match header [] = none
first_match header ((signature, mime) ∷ rest) =
    if starts_with header signature then some mime else first_match header rest

unfoldable pub detect_mime_from_magic : (header : Bytes) → Option Text
detect_mime_from_magic header = first_match header magic_signatures

abbrev pub type_not_allowed : Error
type_not_allowed = http 400 (codes "File type not allowed. Accepted: PDF, DOCX")

-- The detail names the limit, which the error leaves out here.
abbrev pub file_too_large : Error
file_too_large = http 413 (codes "File too large")

abbrev pub content_mismatch : Error
content_mismatch = http 400 (codes "File content does not match declared type. Accepted: PDF, DOCX")

-- `while chunk := await file.read(...)`: the chunks read so far are joined in `contents`.
unfoldable pub read_chunks :
    (max_bytes : ℕ) → (total : ℕ) → (contents : Bytes) → (reads : List Bytes) → Result Bytes
read_chunks max_bytes total contents [] = ok contents
read_chunks max_bytes total contents ([] ∷ reads) = ok contents
read_chunks max_bytes total contents ((b ∷ bs) ∷ reads) =
    let total' = total + length (b ∷ bs) in
    let rest = read_chunks max_bytes total' (contents ++ (b ∷ bs)) reads in
    if ltb max_bytes total' then err file_too_large else rest

-- `detected is None or detected != file.content_type`
abbrev pub mismatch : Option Text → Option Text → Bool
mismatch none declared = true
mismatch (some t) none = true
mismatch (some t) (some u) = not (text_eq t u)

-- The module's `_backend`, the upload directory, the requests sent to S3, the last one first, and what
-- the storage does with the next write: `none` takes it, `some left` raises, where the upload
-- directory is then `left`, with whatever the write has come to.
pub record Files : Type 0 where
  pub backend : Option StorageBackend
  pub directory : Directory
  pub requests : List S3Request
  pub refusal : Option Directory

-- `_get_backend`
unfoldable pub get_backend : StorageSettings → Action Files StorageBackend
get_backend settings files = elim files.backend [
  | some b ↦ (ok b, files)
  | none ↦ elim (get_storage_backend settings) [
    | err e ↦ (err e, files)
    | ok b ↦ (ok b, record files { backend = some b })
  ]
]

-- `backend.save(contents, key)`
abbrev pub backend_save : (now : ℕ) → StorageBackend → Bytes → (key : Text) → Action Files Text
backend_save now (local upload_dir) contents key files =
    let (path, directory) = local_save upload_dir contents key now files.directory in
    elim files.refusal [
      | none ↦ (ok path, record files { directory = directory })
      | some left ↦ (err os_error, record files { directory = left })
    ]
backend_save now (s3 b region endpoint) contents key files =
    let (s3_key, request) = s3_save b contents key in
    let files' = record files { requests = request ∷ files.requests } in
    elim files.refusal [ none ↦ (ok s3_key, files') | some left ↦ (err client_error, files') ]

-- The link that is handed out: a path of the server, or a presigned request.
pub data Link : Type 0 where
  path : Text → Link
  presigned : S3Request → Link

module _ (settings : StorageSettings) (max_upload_size_mb : ℕ) where
  unfoldable pub save_resume : (uuid : Text) → (now : ℕ) → UploadFile → Action Files Text
  save_resume uuid now file = do
    raise_if (not (allowed_content_type file.content_type)) type_not_allowed
    contents ← lift (read_chunks (max_upload_size_mb * 1024 * 1024) 0 [] file.reads)
    raise_if (mismatch (detect_mime_from_magic (take magic_read_size contents)) file.content_type)
        content_mismatch
    backend ← get_backend settings
    backend_save now backend contents (build_key uuid file.filename)

abbrev pub backend_url : StorageBackend → Text → Link
backend_url (local upload_dir) ref = path (local_url ref)
backend_url (s3 b region endpoint) ref = presigned (s3_url b ref)

unfoldable pub get_resume_url : StorageSettings → (resume_path : Text) → Action Files Link
get_resume_url settings resume_path = do
  backend ← get_backend settings
  pure (backend_url backend resume_path)

abbrev pub backend_list :
    (pages : List (Option (List FileInfo))) → StorageBackend → Directory → List FileInfo
backend_list pages (local upload_dir) directory = local_list_files directory
backend_list pages (s3 b region endpoint) directory = s3_list_files pages

-- `list_files`; the pages are what the paginator of S3 returns.
unfoldable pub list_files :
    StorageSettings → (pages : List (Option (List FileInfo))) → Action Files (List FileInfo)
list_files settings pages = do
  backend ← get_backend settings
  gets (λ (files : Files). backend_list pages backend files.directory)
