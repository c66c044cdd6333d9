-- ===== src/Security.antt =====
-- app/core/security.py. bcrypt, python-jose and the textual form of a UUID are an interface; the
-- laws are what their documentation promises.
pub mod Memory
use alma_lead_management_ser.Common.{
  ℕ, ◌+◌, ◌*◌, ◌<◌, ◌≡◌, Bool, true, Option, none, some, [], Text, codes,
}
use alma_lead_management_ser.Results.{Result, ok, err, Error, http}

-- The claims of a token that the service reads.
pub record Payload : Type 0 where
  pub sub : Option Text
  pub role : Option Text
  pub exp : ℕ

pub record Crypto : Type 0 where
  -- `bcrypt.hashpw(password, salt)` and `bcrypt.checkpw(plain, hashed)`
  pub hashpw : (password salt : Text) → Text
  pub checkpw : (plain hashed : Text) → Bool
  -- `jwt.encode(payload, key)`, and `jwt.decode(token, key)` at a time: `none` is a JWTError
  pub jwt_encode : Payload → (key : Text) → Text
  pub jwt_decode : (now : ℕ) → (token key : Text) → Option Payload
  -- `str(u)`, and `uuid.UUID(s)`: `none` is a ValueError
  pub uuid_str : ℕ → Text
  pub uuid_parse : Text → Option ℕ

pub record IsCrypto (C : Crypto) : Type 0 where
  -- a password is accepted against its own hash
  pub checkpw-hashpw : (password salt : Text) → C.checkpw password (C.hashpw password salt) ≡ true
  -- a token is read back with its key until it expires, and not after that
  pub jwt_decode-jwt_encode :
      (now : ℕ) (p : Payload) (key : Text)
      → now < p.exp
      → C.jwt_decode now (C.jwt_encode p key) key ≡ some p
  pub jwt_decode_expired :
      (now : ℕ) (p : Payload) (key : Text)
      → p.exp < now
      → C.jwt_decode now (C.jwt_encode p key) key ≡ none
  pub uuid_parse-uuid_str : (u : ℕ) → C.uuid_parse (C.uuid_str u) ≡ some u
  pub uuid_parse_empty : C.uuid_parse [] ≡ none

-- The settings that this module reads.
pub record TokenSettings : Type 0 where
  pub secret_key : Text
  pub access_token_expire_minutes : ℕ

module _ (C : Crypto) where
  unfoldable pub hash_password : (salt password : Text) → Text
  hash_password salt password = C.hashpw password salt

  unfoldable pub verify_password : (plain hashed : Text) → Bool
  verify_password plain hashed = C.checkpw plain hashed

  unfoldable pub create_access_token : TokenSettings → (now : ℕ) → (subject role : Text) → Text
  create_access_token settings now subject role =
      C.jwt_encode
        (record {
          sub = some subject;
          role = some role;
          exp = now + settings.access_token_expire_minutes * 60;
        })
        settings.secret_key

  abbrev pub invalid_token : Error
  invalid_token = http 401 (codes "Invalid token")

  abbrev with_subject : Payload → Result Payload
  with_subject p = elim p.sub [ none ↦ err invalid_token | some sub ↦ ok p ]

  abbrev decoded : Option Payload → Result Payload
  decoded none = err invalid_token
  decoded (some p) = with_subject p

  unfoldable pub decode_access_token : TokenSettings → (now : ℕ) → (token : Text) → Result Payload
  decode_access_token settings now token = decoded (C.jwt_decode now token settings.secret_key)
