-- ===== src/Files/Reading.antt =====
-- The loop that reads an upload.
use alma_lead_management_ser.Common.{
  ℕ, ◌+◌, ◌≤◌, ◌++◌, ◌≡◌, List, [], ◌∷◌, length, ltb, if◌then◌else◌, append_assoc, append-nil,
  length-append, arith,
}
use native.Mathlib.Nat.{zero-add}
use alma_lead_management_ser.Results.{ok, err}
use alma_lead_management_ser.Storage.{Bytes}
use alma_lead_management_ser.Files.{read_chunks, file_too_large}

-- The bytes of an upload: everything up to the first empty read.
unfoldable pub uploaded : (reads : List Bytes) → Bytes
uploaded [] = []
uploaded ([] ∷ reads) = []
uploaded ((b ∷ bs) ∷ reads) = (b ∷ bs) ++ uploaded reads

read_chunks-from :
    (m t : ℕ) (c : Bytes) (reads : List Bytes)
    → t ≤ m
    → read_chunks m t c reads ≡ (
        if ltb m (t + length (uploaded reads))
        then err file_too_large
        else ok (c ++ uploaded reads))
unfolding read_chunks uploaded
read_chunks-from m t c [] h = rw (append-nil c) (ground arith)
read_chunks-from m t c ([] ∷ reads) h = rw (append-nil c) (ground arith)
read_chunks-from m t c ((b ∷ bs) ∷ reads) h = ground (
  arith,
  append_assoc c (b ∷ bs) (uploaded reads),
  length-append (b ∷ bs) (uploaded reads),
  λ (k : t + length (b ∷ bs) ≤ m). read_chunks-from m (t + length (b ∷ bs)) (c ++ (b ∷ bs)) reads k,
)

-- The loop reads everything and then compares the size with the limit, as far as the outcome goes:
-- it stops early only where the whole upload is too large.
pub read_chunks_lem :
    (max_bytes : ℕ) (reads : List Bytes)
    → read_chunks max_bytes 0 [] reads ≡ (
        if ltb max_bytes (length (uploaded reads)) then err file_too_large else ok (uploaded reads))
read_chunks_lem max_bytes reads =
    simp zero-add at (read_chunks-from max_bytes 0 [] reads (omega arith))
