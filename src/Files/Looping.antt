-- ===== src/Files/Looping.antt =====
-- The loop of app/services/file_service.py over a client that may go on sending: `read i` is what the
-- i-th call of `file.read` returns, and the fuel bounds the calls.
use alma_lead_management_ser.Common.{
  ℕ, Bool, zero, suc, ◌+◌, ◌≤◌, ◌++◌, ◌≡◌, refl, ap, ◌∙◌, Option, none, some, List, [], ◌∷◌, length,
  ltb, if◌then◌else◌, arith,
}
use native.Mathlib.Nat.{suc-add}
use alma_lead_management_ser.Results.{Result, ok, err}
use alma_lead_management_ser.Storage.{Bytes}
use alma_lead_management_ser.Files.{read_chunks, file_too_large}
use alma_lead_management_ser.Files.Reading.{uploaded, read_chunks_lem}

-- One round, with the chunk that was read; `rest` is the loop after it.
abbrev one_round :
    (chunk : Bytes) → (too_large : Bool) → Bytes → Option (Result Bytes) → Option (Result Bytes)
one_round [] too_large contents rest = some (ok contents)
one_round (b ∷ bs) too_large contents rest = if too_large then some (err file_too_large) else rest

-- `none` is a loop that would call `read` once more.
unfoldable pub read_loop :
    (fuel : ℕ)
    → (read : ℕ → Bytes) → (i max_bytes total : ℕ) → (contents : Bytes) → Option (Result Bytes)
read_loop zero read i max_bytes total contents = none
read_loop (suc fuel) read i max_bytes total contents =
    let total' = total + length (read i) in
    let rest = read_loop fuel read (suc i) max_bytes total' (contents ++ read i) in
    one_round (read i) (ltb max_bytes total') contents rest

-- What the calls from the i-th on return, `n` of them.
abbrev pub reads_from : (i n : ℕ) → (ℕ → Bytes) → List Bytes
reads_from i zero read = []
reads_from i (suc n) read = read i ∷ reads_from (suc i) n read

round_agrees :
    (chunk : Bytes) (m t : ℕ) (c : Bytes) (reads : List Bytes) (rest : Option (Result Bytes))
    → (1 ≤ length chunk
        → t + length chunk ≤ m
        → rest ≡ some (read_chunks m (t + length chunk) (c ++ chunk) reads))
    → one_round chunk (ltb m (t + length chunk)) c rest ≡ some (read_chunks m t c (chunk ∷ reads))
unfolding read_chunks
round_agrees [] m t c reads rest h = refl
round_agrees (b ∷ bs) m t c reads rest h = ground (arith, h)

read_loop-from :
    (n extra : ℕ) (read : ℕ → Bytes) (i m t : ℕ) (c : Bytes)
    → t ≤ m
    → m + 2 ≤ t + n
    → read_loop (n + extra) read i m t c ≡ some (read_chunks m t c (reads_from i n read))
unfolding read_loop read_chunks
read_loop-from zero extra read i m t c h k = absurd (omega arith)
read_loop-from (suc n) extra read i m t c h k = rw suc-add (
    round_agrees (read i) m t c (reads_from (suc i) n read)
      (read_loop (n + extra) read (suc i) m (t + length (read i)) (c ++ read i))
      (λ one small.
        read_loop-from n extra read (suc i) m (t + length (read i)) (c ++ read i) small
          (omega arith)))

-- The loop ends, whatever the client sends and for however long: `max_bytes + 2` calls of `read` are
-- enough. The outcome is that of reading all they return, up to the first empty chunk, and comparing
-- the size with the limit.
pub read_loop-terminates :
    (extra : ℕ) (read : ℕ → Bytes) (max_bytes : ℕ)
    → read_loop (max_bytes + 2 + extra) read 0 max_bytes 0 []
      ≡ some (
          if ltb max_bytes (length (uploaded (reads_from 0 (max_bytes + 2) read)))
          then err file_too_large
          else ok (uploaded (reads_from 0 (max_bytes + 2) read)))
read_loop-terminates extra read max_bytes =
    read_loop-from (max_bytes + 2) extra read 0 max_bytes 0 [] (omega arith) (omega arith)
    ∙ ap (λ r. some r) (read_chunks_lem max_bytes (reads_from 0 (max_bytes + 2) read))
