-- ===== src/Security.antt =====
-- backend/internal/security: session/session.go, password/password.go and totp/totp.go. A Go string and
-- a []byte are both a String here.
use Prim.Native.Char.{Char, code}
use Prim.Native.String.{String, [], ◌∷◌, len}
use text.Mathlib.Text.{◌==◌ as str_eq}
use vps_billing_codex.Shared.{
  ℕ, zero, suc, ◌+◌, ◌-◌, ◌^◌, ◌*◌, ◌/◌, ◌%◌, ◌==◌, Bool, true, false, not, Option, none, some,
  List, [], ◌∷◌, if◌then◌else◌, ◌||◌, ◌&&◌, ◌&◌, ltb,
}
use vps_billing_codex.Operation.Queue.{second}
pub mod Codes
pub mod Parts
pub mod Passwords
pub mod Tests

-- What Hash returns: the text that is stored, ErrInvalidPassword, or the error of crypto/rand.
pub data Hashed : Type 0 where
  hashed : String → Hashed
  invalid_length no_salt : Hashed

-- The standard library's cryptography and encodings. `random n k` are the k bytes of the n-th read of
-- crypto/rand, if it succeeds; `gcm_open` and `gcm_seal` are AES-GCM under the key of the totp.Manager.
pub record Crypto : Type 0 where
  pub random : ℕ → ℕ → Option String
  pub hmac_sha256 : String → String → String
  pub hmac_sha1 : String → ℕ → List ℕ
  pub base64_url : String → String
  pub base64 : String → String
  pub base64_decoded : String → Option String
  pub base32 : String → String
  pub base32_decoded : String → Option String
  pub argon2_key : String → String → String
  pub rune_count : String → ℕ
  pub decimal : ℕ → String
  pub six_digits : ℕ → String
  pub scan_parameters : String → Option (ℕ × ℕ × ℕ)
  pub gcm_seal : String → String → String
  pub gcm_open : String → String → Option String
  pub path_escape : String → String
  pub query : List (String × String) → String
  pub to_upper : String → String
  pub to_lower : String → String
  pub trim_space : String → String

abbrev pub min_length : ℕ
min_length = 12

abbrev pub max_length : ℕ
max_length = 128

abbrev pub salt_length : ℕ
salt_length = 16

abbrev pub key_length : ℕ
key_length = 32

abbrev pub memory : ℕ
memory = 19 * 1024

abbrev pub iterations : ℕ
iterations = 2

abbrev pub parallelism : ℕ
parallelism = 1

-- The time window of a code, from the Unix time in nanoseconds.
abbrev pub period : ℕ
period = 30 * second

abbrev pub counter_at : ℕ → ℕ
counter_at now = (now / second) / 30

-- The six digits of a digest of 20 bytes
abbrev pub byte_at : List ℕ → ℕ → ℕ
byte_at [] n = 0
byte_at (b ∷ bs) zero = b
byte_at (b ∷ bs) (suc n) = byte_at bs n

abbrev pub truncated : List ℕ → ℕ
truncated bytes =
    let offset = byte_at bytes 19 % 16 in
    (byte_at bytes offset % 128) * 2 ^ 24
    + byte_at bytes (offset + 1) * 2 ^ 16
    + byte_at bytes (offset + 2) * 2 ^ 8
    + byte_at bytes (offset + 3)

-- strings.Split at "$"
abbrev pub is_dollar : Char → Bool
is_dollar x = code x == 36

abbrev pub with_first : Char → List String → List String
with_first x [] = []
with_first x (part ∷ parts) = (x ∷ part) ∷ parts

unfoldable pub split_at_dollar : String → List String
split_at_dollar [] = "" ∷ []
split_at_dollar (x ∷ s) =
    let rest = split_at_dollar s in if is_dollar x then "" ∷ rest else with_first x rest

module _ (c : Crypto) where
  -- session.NewToken, at the n-th read of random bytes
  abbrev pub new_token : ℕ → Option String
  new_token n = elim (c.random n 32) [ none ↦ none | some bytes ↦ some (c.base64_url bytes) ]

  -- session.Digest, CSRFToken and ValidCSRF
  abbrev pub digest : String → String → String
  digest secret token = c.hmac_sha256 secret token

  abbrev pub csrf_token : String → String → String
  csrf_token secret token = c.base64_url (digest secret ("csrf:" & token))

  abbrev pub valid_csrf : String → String → String → Bool
  valid_csrf secret token candidate = str_eq (csrf_token secret token) candidate

  -- What Sprintf makes of the parameters, and of the whole.
  abbrev pub parameters : String
  parameters =
      "m=" & c.decimal memory & ",t=" & c.decimal iterations & ",p=" & c.decimal parallelism

  abbrev pub encoded : String → String → String
  encoded salt key = "$argon2id$v=19$" & parameters & "$" & c.base64 salt & "$" & c.base64 key

  -- password.Hash, at the n-th read of random bytes
  unfoldable pub hash_password : ℕ → String → Hashed
  hash_password n value =
      if ltb (c.rune_count value) min_length || ltb max_length (c.rune_count value)
      then invalid_length
      else elim (c.random n salt_length) [
        | none ↦ no_salt
        | some salt ↦ hashed (encoded salt (c.argon2_key value salt))
      ]

  abbrev pub has_parameters : Option (ℕ × ℕ × ℕ) → Bool
  has_parameters none = false
  has_parameters (some (m, t, p)) = (m == memory) && ((t == iterations) && (p == parallelism))

  abbrev pub matches : String → Option String → Option String → Bool
  matches value (some salt) (some want) =
      (len salt == salt_length)
      && ((len want == key_length) && str_eq (c.argon2_key value salt) want)
  matches value _ _ = false

  -- password.Verify, by the parts of the text between dollar signs; the key is computed with the
  -- parameters that were read, and these are the constants by then.
  abbrev pub verify_parts : List String → String → Bool
  verify_parts (_ ∷ name ∷ version ∷ settings ∷ salt ∷ key ∷ []) value =
      str_eq name "argon2id"
      && (str_eq version "v=19"
          && (has_parameters (c.scan_parameters settings)
              && matches value (c.base64_decoded salt) (c.base64_decoded key)))
  verify_parts _ value = false

  unfoldable pub verify_password : String → String → Bool
  verify_password stored value = verify_parts (split_at_dollar stored) value

  -- totp.generate
  unfoldable pub generate : String → ℕ → String
  generate secret now = elim (c.base32_decoded (c.to_upper secret)) [
    | none ↦ ""
    | some key ↦ c.six_digits (truncated (c.hmac_sha1 key (counter_at now)) % 1000000)
  ]

  -- totp.Validate, after 1970-01-01 00:00:30
  unfoldable pub validate : String → String → ℕ → Bool
  validate secret code now =
      (len code == 6)
      && (str_eq (generate secret (now - period)) code
          || (str_eq (generate secret now) code || str_eq (generate secret (now + period)) code))

  -- totp.GenerateSecret, Manager.Encrypt and Manager.Decrypt, and URI
  abbrev pub generate_secret : ℕ → Option String
  generate_secret n = elim (c.random n 20) [ none ↦ none | some bytes ↦ some (c.base32 bytes) ]

  -- The ciphertext and the nonce
  abbrev pub encrypt : ℕ → String → Option (String × String)
  encrypt n secret = elim (c.random n 12) [
    | none ↦ none
    | some nonce ↦ some (c.gcm_seal nonce secret, nonce)
  ]

  abbrev pub decrypt : String → String → Option String
  decrypt ciphertext nonce = c.gcm_open nonce ciphertext

  abbrev pub uri : String → String → String → String
  uri issuer account secret =
      "otpauth://totp/"
      & c.path_escape (issuer & ":" & account)
      & "?"
      & c.query (
          ("secret", secret)
          ∷ ("issuer", issuer)
          ∷ ("algorithm", "SHA1")
          ∷ ("digits", "6")
          ∷ ("period", "30")
          ∷ [])
