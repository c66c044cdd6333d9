-- ===== src/Files/Tests.antt =====
-- Uploads at concrete bytes.
use alma_lead_management_ser.Common.{
  ℕ, ◌+◌, ◌*◌, ◌≡◌, refl, inl, inr, none, some, List, [], ◌∷◌, length, ltb, if◌then◌else◌, arith,
  codes,
}
use alma_lead_management_ser.Results.{ok, err, os_error}
use alma_lead_management_ser.Storage.{
  Bytes, StorageSettings, local, build_key, local_save, get_storage_backend,
}
use alma_lead_management_ser.Storage.Paths.{
  suffix, name, split_on, from_last_dot, name_suffix, path_text,
}
use alma_lead_management_ser.Files.{
  UploadFile, Files, save_resume, read_chunks, file_too_large, content_mismatch, pdf_type,
  docx_type, detect_mime_from_magic, get_backend,
}
use alma_lead_management_ser.Files.Reading.{uploaded}
use alma_lead_management_ser.Files.Looping.{read_loop, reads_from, read_loop-terminates}
use alma_lead_management_ser.Files.Accepting.{
  Acceptable, Stored, save_resume-stores, save_resume-Acceptable,
}

abbrev here : StorageSettings
here = record {
  storage_backend = codes "Local";
  upload_dir = codes "uploads";
  s3_bucket = [];
  s3_prefix = codes "resumes";
  s3_region = [];
  s3_endpoint_url = [];
}

abbrev empty : Files
empty = record { backend = none; directory = none; requests = []; refusal = none }

abbrev running : Files
running = record empty { backend = some (local (codes "uploads")) }

abbrev cv_chunks : List Bytes
cv_chunks = codes "%PDF-1" ∷ codes ".7" ∷ []

abbrev cv : UploadFile
cv = record { filename = some (codes "my cv.PDF"); content_type = some pdf_type; reads = cv_chunks }

save_resume-cv : (save_resume here 1 (codes "u1") 7 cv empty).0 ≡ ok (codes "uploads/u1.PDF")
unfolding save_resume get_backend get_storage_backend read_chunks detect_mime_from_magic build_key
    suffix name split_on from_last_dot name_suffix local_save path_text
save_resume-cv = refl

-- A full disk: the upload directory is there, the file is not.
save_resume-full :
    save_resume here 1 (codes "u1") 7 cv (record running { refusal = some (some []) })
    ≡ (err os_error, record running { directory = some []; refusal = some (some []) })
unfolding save_resume get_backend get_storage_backend read_chunks detect_mime_from_magic build_key
    suffix name split_on from_last_dot name_suffix local_save path_text
save_resume-full = refl

read_chunks-limit : read_chunks 7 0 [] cv_chunks ≡ err file_too_large
unfolding read_chunks
read_chunks-limit = refl

uploaded-cv : Acceptable (1 * 1024 * 1024) cv
unfolding uploaded
uploaded-cv = (omega arith, (pdf_type, refl, inl (refl, refl)))

here-local : get_storage_backend here ≡ ok (local (codes "uploads"))
unfolding get_storage_backend
here-local = refl

-- The first upload of a process.
save_resume-stores_example :
    let (r, files) = save_resume here 1 (codes "u1") 7 cv empty in
    Stored
      (local (codes "uploads"))
      (uploaded cv_chunks)
      (build_key (codes "u1") cv.filename)
      none
      []
      r
      files
    × (files.backend ≡ some (local (codes "uploads")))
save_resume-stores_example =
    save_resume-stores here 1 (codes "u1") 7 cv empty (local (codes "uploads")) uploaded-cv
      (inr (refl, here-local)) refl

save_resume-Acceptable_example : Acceptable (1 * 1024 * 1024) cv
save_resume-Acceptable_example =
    save_resume-Acceptable here 1 (codes "u1") 7 cv empty (codes "uploads/u1.PDF") save_resume-cv

abbrev wrong : UploadFile
wrong = record cv { content_type = some docx_type }

save_resume-wrong : (save_resume here 1 (codes "u1") 7 wrong running).0 ≡ err content_mismatch
unfolding save_resume read_chunks detect_mime_from_magic
save_resume-wrong = refl

-- A client that never stops sending.
abbrev endless : ℕ → Bytes
endless i = b'%' ∷ b'P' ∷ []

read_loop-endless : read_loop 3 endless 0 5 0 [] ≡ some (err file_too_large)
unfolding read_loop
read_loop-endless = refl

read_loop-terminates_example :
    read_loop (5 + 2 + 1) endless 0 5 0 []
    ≡ some (
        if ltb 5 (length (uploaded (reads_from 0 (5 + 2) endless)))
        then err file_too_large
        else ok (uploaded (reads_from 0 (5 + 2) endless)))
read_loop-terminates_example = read_loop-terminates 1 endless 5
