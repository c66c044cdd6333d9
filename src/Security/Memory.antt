-- ===== src/Security/Memory.antt =====
-- The interface of app/core/security.py has an instance: a hash is the salt before the password, a
-- token is its claims before the key, and the text of a UUID is one character.
use alma_lead_management_ser.Common.{
  ℕ, zero, suc, ◌-◌, ◌≡◌, refl, ap, ap₂, ◌∙◌, Bool, true, Option, none, some, [], ◌∷◌, ◌++◌, length,
  drop, take, leb, if◌then◌else◌, Text, text_eq, text_eq_refl, arith, length-append,
}
use alma_lead_management_ser.Security.{Crypto, IsCrypto, Payload}

abbrev check : (plain hashed : Text) → Bool
check plain hashed = text_eq (drop (length hashed - length plain) hashed) plain

abbrev encode_option : Option Text → Text
encode_option none = 0 ∷ []
encode_option (some t) = suc (length t) ∷ t

abbrev encode : Payload → Text → Text
encode p key = p.exp ∷ (encode_option p.sub ++ (encode_option p.role ++ key))

-- A claim and what follows it.
abbrev decode_option : Text → Option (Option Text × Text)
decode_option [] = none
decode_option (zero ∷ rest) = some (none, rest)
decode_option (suc n ∷ rest) = some (some (take n rest), drop n rest)

abbrev claims :
    (now exp : ℕ)
    → (sub : Option Text) → Option (Option Text × Text)
    → (key : Text) → Option Payload
claims now exp sub none key = none
claims now exp sub (some (role, rest)) key =
    if text_eq rest key
    then (if leb now exp then some (record { sub = sub; role = role; exp = exp }) else none)
    else none

abbrev subject : (now exp : ℕ) → Option (Option Text × Text) → (key : Text) → Option Payload
subject now exp none key = none
subject now exp (some (sub, rest)) key = claims now exp sub (decode_option rest) key

abbrev decode : (now : ℕ) → (token key : Text) → Option Payload
decode now [] key = none
decode now (exp ∷ rest) key = subject now exp (decode_option rest) key

abbrev read_uuid : Text → Option ℕ
read_uuid (u ∷ []) = some u
read_uuid _ = none

abbrev pub memory_crypto : Crypto
memory_crypto = record {
  hashpw = λ password salt. salt ++ password;
  checkpw = check;
  jwt_encode = encode;
  jwt_decode = decode;
  uuid_str = λ u. u ∷ [];
  uuid_parse = read_uuid;
}

drop-prefix : (n : ℕ) (a b : Text) → n ≡ length a → drop n (a ++ b) ≡ b
drop-prefix zero [] b e = refl
drop-prefix (suc n) [] b e = absurd (omega arith)
drop-prefix zero (x ∷ a) b e = absurd (omega arith)
drop-prefix (suc n) (x ∷ a) b e = drop-prefix n a b (omega arith)

take-prefix : (a b : Text) → take (length a) (a ++ b) ≡ a
take-prefix [] b = refl
take-prefix (x ∷ a) b = ap (λ (r : Text). x ∷ r) (take-prefix a b)

decode-encode_option :
    (o : Option Text) (rest : Text) → decode_option (encode_option o ++ rest) ≡ some (o, rest)
decode-encode_option none rest = refl
decode-encode_option (some t) rest =
    ap₂ (λ (a b : Text). some (some a, b)) (take-prefix t rest) (drop-prefix (length t) t rest refl)

decode-encode :
    (now : ℕ) (p : Payload) (key : Text)
    → decode now (encode p key) key ≡ (if leb now p.exp then some p else none)
decode-encode now p key =
    ap (λ r. subject now p.exp r key) (decode-encode_option p.sub (encode_option p.role ++ key))
    ∙ ap (λ r. claims now p.exp p.sub r key) (decode-encode_option p.role key)
    ∙ ap (λ (b : Bool). if b then (if leb now p.exp then some p else none) else none)
        (text_eq_refl key)

check-hash : (password salt : Text) → check password (salt ++ password) ≡ true
check-hash password salt =
    let n : length (salt ++ password) - length password ≡ length salt =
      omega (arith, length-append salt password) in
    ap (λ r. text_eq r password) (drop-prefix _ salt password n) ∙ text_eq_refl password

pub memory_crypto-IsCrypto : IsCrypto memory_crypto
memory_crypto-IsCrypto = record {
  checkpw-hashpw = check-hash;
  jwt_decode-jwt_encode = λ now p key h. ground (arith, decode-encode now p key);
  jwt_decode_expired = λ now p key h. ground (arith, decode-encode now p key);
  uuid_parse-uuid_str = λ u. refl;
  uuid_parse_empty = refl;
}
