-- ===== src/Storage/Tests.antt =====
-- Keys, listings and the choice of a backend at concrete values.
use alma_lead_management_ser.Common.{◌≡◌, true, ◌++◌, refl, some, none, [], ◌∷◌, codes, map, arith}
use alma_lead_management_ser.Results.{err, runtime_error}
use alma_lead_management_ser.Storage.{
  Entry, build_key, local_save, local_list_files, has_resume_extension, FileInfo, StorageSettings,
  get_storage_backend, local_url,
}
use alma_lead_management_ser.Storage.Paths.{
  suffix, name, split_on, from_last_dot, name_suffix, path_text,
}
use alma_lead_management_ser.Storage.Keys.{NoSlash, build_key-NoSlash}

build_key-traversal : build_key (codes "u1") (some (codes "../x.d/e.sh")) ≡ codes "u1.sh"
unfolding build_key suffix name split_on from_last_dot name_suffix
build_key-traversal = refl

suffix-hidden : suffix (codes "a/.bashrc") ++ suffix (codes "cv.") ≡ []
unfolding suffix name split_on from_last_dot name_suffix
suffix-hidden = refl

local_url-normal : local_url (codes "./up//a/./b.pdf") ≡ codes "up/a/b.pdf"
unfolding local_url path_text split_on
local_url-normal = refl

-- A file whose name ends in neither ".pdf" nor ".docx" is stored but not listed.
local_list_files-save :
    map
      (λ (f : FileInfo). f.key)
      (local_list_files
        (local_save
          (codes "up")
          (1 ∷ [])
          (codes "b.doc")
          7
          (local_save
            (codes "up")
            (1 ∷ 2 ∷ [])
            (codes "c.pdf")
            6
            (local_save (codes "up") (3 ∷ []) (codes "a.DOCX") 5 none).1).1).1)
    ≡ codes "a.DOCX" ∷ codes "c.pdf" ∷ []
unfolding local_list_files local_save has_resume_extension suffix name split_on from_last_dot
    name_suffix
local_list_files-save = refl

abbrev no_bucket : StorageSettings
no_bucket = record {
  storage_backend = codes "S3";
  upload_dir = codes "uploads";
  s3_bucket = [];
  s3_prefix = codes "resumes";
  s3_region = [];
  s3_endpoint_url = [];
}

get_storage_backend-no_bucket : get_storage_backend no_bucket ≡ err runtime_error
unfolding get_storage_backend
get_storage_backend-no_bucket = refl

build_key-NoSlash_example : NoSlash (build_key (codes "u1") (some (codes "../x.d/e.sh")))
build_key-NoSlash_example =
    build_key-NoSlash (codes "u1") (some (codes "../x.d/e.sh")) (ground arith)

abbrev a_cv : Entry
a_cv = record { name = codes "a.PDF"; is_file = true; contents = 1 ∷ []; mtime = 5 }

abbrev a_doc : Entry
a_doc = record a_cv { name = codes "b.doc" }
