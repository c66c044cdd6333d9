-- ===== src/Storage.antt =====
-- app/services/storage.py: the two storage backends, and the keys of the uploaded files. A path is a
-- text with "/", as on the platforms that the Dockerfile targets; bytes are numbers below 256. The
-- upload directory is the list of its entries; an S3 request is a value.
pub mod Paths
pub mod Keys
pub mod Listing
mod Tests
use alma_lead_management_ser.Common.{
  ℕ, ◌+◌, ◌-◌, ◌++◌, Bool, true, false, not, ◌&&◌, ◌||◌, Option, none, some, List, [], ◌∷◌, map,
  length, leb, ltb, ◌==◌, if◌then◌else◌, Text, text_eq, truthy, codes, select, starts_with,
}
use alma_lead_management_ser.Results.{Result, ok, err, Error, value_error, runtime_error}
use Paths.{suffix, path_text, text_leb}

abbrev pub Bytes : Type 0
Bytes = List ℕ

-- An entry of the upload directory.
pub record Entry : Type 0 where
  pub name : Text
  pub is_file : Bool
  pub contents : Bytes
  pub mtime : ℕ

pub record FileInfo : Type 0 where
  pub key : Text
  pub size_bytes : ℕ
  pub last_modified : ℕ

-- The directory: `none` if it does not exist.
abbrev pub Directory : Type 0
Directory = Option (List Entry)

-- `mkdir(parents=True, exist_ok=True)`
abbrev pub mkdir : Directory → List Entry
mkdir none = []
mkdir (some entries) = entries

-- `open(filepath, "wb")` and `write(data)`.
abbrev pub write_file : Text → Bytes → ℕ → List Entry → List Entry
write_file name body now [] =
    record { name = name; is_file = true; contents = body; mtime = now } ∷ []
write_file name body now (e ∷ es) =
    if text_eq e.name name
    then record e { contents = body; mtime = now } ∷ es
    else e ∷ write_file name body now es

-- `str(upload_dir / key)`: an absolute key stands for itself.
abbrev pub join_path : (dir key : Text) → Text
join_path dir key =
    if starts_with key (codes "/") || not (truthy dir)
    then path_text key
    else path_text (dir ++ (codes "/" ++ key))

-- `LocalStorageBackend.save`
unfoldable pub local_save :
    (upload_dir : Text) → (body : Bytes) → (key : Text) → (now : ℕ) → Directory → Text × Directory
local_save upload_dir body key now dir =
    (join_path upload_dir key, some (write_file key body now (mkdir dir)))

-- `LocalStorageBackend.url`
unfoldable pub local_url : Text → Text
local_url stored_ref = path_text stored_ref

-- `str.lower`, as far as ".pdf" and ".docx" can come out: no letter outside ASCII becomes one of theirs.
abbrev pub lower : Text → Text
lower s = map (λ c. if leb b'A' c && leb c b'Z' then c + 32 else c) s

-- `p.suffix.lower() in _RESUME_EXTENSIONS`
unfoldable pub has_resume_extension : Text → Bool
has_resume_extension name =
    let ext = lower (suffix name) in text_eq ext (codes ".pdf") || text_eq ext (codes ".docx")

-- `sorted(...)` by the path: the directory is the same, so by the name.
abbrev pub place_entry : Entry → List Entry → List Entry
place_entry e [] = e ∷ []
place_entry e (f ∷ fs) = if text_leb e.name f.name then e ∷ f ∷ fs else f ∷ place_entry e fs

abbrev pub sort_entries : List Entry → List Entry
sort_entries [] = []
sort_entries (e ∷ es) = place_entry e (sort_entries es)

abbrev pub file_info : Entry → FileInfo
file_info e = record { key = e.name; size_bytes = length e.contents; last_modified = e.mtime }

abbrev pub is_resume : Entry → Bool
is_resume e = e.is_file && has_resume_extension e.name

-- `LocalStorageBackend.list_files`
unfoldable pub local_list_files : Directory → List FileInfo
local_list_files none = []
local_list_files (some entries) = map file_info (select is_resume (sort_entries entries))

-- `Path(original_filename).suffix if original_filename else ".pdf"`, behind a fresh UUID.
unfoldable pub build_key : (uuid : Text) → (original_filename : Option Text) → Text
build_key uuid none = uuid ++ codes ".pdf"
build_key uuid (some name) = uuid ++ (if truthy name then suffix name else codes ".pdf")

-- `S3StorageBackend`: its settings, and what it asks of the client.
pub record S3 : Type 0 where
  pub bucket : Text
  pub prefix : Text

pub data S3Request : Type 0 where
  put_object : (bucket key : Text) → Bytes → S3Request
  generate_presigned_url : (bucket key disposition : Text) → (expires_in : ℕ) → S3Request

abbrev pub presigned_expiry : ℕ
presigned_expiry = 300

unfoldable pub s3_save : S3 → Bytes → (key : Text) → Text × S3Request
s3_save b body key =
    let s3_key = if truthy b.prefix then b.prefix ++ (codes "/" ++ key) else key in
    (s3_key, put_object b.bucket s3_key body)

unfoldable pub s3_url : S3 → (stored_ref : Text) → S3Request
s3_url b stored_ref =
    generate_presigned_url b.bucket stored_ref (codes "attachment") presigned_expiry

-- The pages of `list_objects_v2`; a page without "Contents" is empty.
abbrev page_files : Option (List FileInfo) → List FileInfo
page_files none = []
page_files (some files) = files

unfoldable pub s3_list_files : List (Option (List FileInfo)) → List FileInfo
s3_list_files [] = []
s3_list_files (page ∷ pages) = page_files page ++ s3_list_files pages

pub data StorageBackend : Type 0 where
  local : (upload_dir : Text) → StorageBackend
  s3 : S3 → (region endpoint_url : Option Text) → StorageBackend

pub record StorageSettings : Type 0 where
  pub storage_backend : Text
  pub upload_dir : Text
  pub s3_bucket : Text
  pub s3_prefix : Text
  pub s3_region : Text
  pub s3_endpoint_url : Text

-- `x or None`
abbrev or_none : Text → Option Text
or_none s = if truthy s then some s else none

unfoldable pub get_storage_backend : StorageSettings → Result StorageBackend
get_storage_backend settings =
    let name = lower settings.storage_backend in
    if text_eq name (codes "local")
    then ok (local settings.upload_dir)
    else if text_eq name (codes "s3")
    then (if truthy settings.s3_bucket
        then ok (
            s3 (record { bucket = settings.s3_bucket; prefix = settings.s3_prefix })
              (or_none settings.s3_region) (or_none settings.s3_endpoint_url))
        else err runtime_error)
    else err value_error
