-- ===== src/Security/Tests.antt =====
-- Runs of Hash, Verify and Validate of backend/internal/security with small functions in the place of
-- the cryptography.
use Prim.Native.String.{String, len}
use vps_billing_codex.Shared.{◌≡◌, ◌↔◌, ◌==◌, none, [], ◌∷◌, true, some, refl, arith, if◌then◌else◌}
use text.Mathlib.Text.{◌==◌ as str_eq}
use vps_billing_codex.Security.{
  Crypto, hash_password, verify_password, split_at_dollar, validate, generate,
}
use vps_billing_codex.Security.Codes.{fresh_code_valid}
use vps_billing_codex.Security.Passwords.{verify_hashed}

abbrev pub small_crypto : Crypto
small_crypto = record {
  random = λ n k. some "0123456789abcdef";
  hmac_sha256 = λ key message. message;
  hmac_sha1 = λ key counter. counter ∷ [];
  base64_url = λ s. s;
  base64 = λ s. s;
  base64_decoded = λ s. some s;
  base32 = λ s. s;
  base32_decoded = λ s. some s;
  argon2_key = λ value salt.
      if str_eq value "correct horse battery"
      then "k123456789abcdef0123456789abcdef"
      else "x123456789abcdef0123456789abcdef";
  rune_count = len;
  decimal = λ n. if n == 19456 then "19456" else if n == 2 then "2" else "1";
  six_digits = λ n. "000042";
  scan_parameters = λ s. if str_eq s "m=19456,t=2,p=1" then some (19456, 2, 1) else none;
  gcm_seal = λ nonce s. s;
  gcm_open = λ nonce s. some s;
  path_escape = λ s. s;
  query = λ q. "";
  to_upper = λ s. s;
  to_lower = λ s. s;
  trim_space = λ s. s;
}

fresh_code_valid_example :
    validate small_crypto "SECRET" (generate small_crypto "SECRET" 1000000000000) 1020000000000
    ≡ true
fresh_code_valid_example =
    fresh_code_valid small_crypto (λ n less. refl) "SECRET" "SECRET" refl 1000000000000
      1020000000000 (omega arith) (omega arith) (omega arith)

split_run : split_at_dollar "$a$$bc" ≡ "" ∷ "a" ∷ "" ∷ "bc" ∷ []
unfolding split_at_dollar
split_run = refl

abbrev pub stored_hash : String
stored_hash = "$argon2id$v=19$m=19456,t=2,p=1$0123456789abcdef$k123456789abcdef0123456789abcdef"

verify_hashed_example :
    ((other : String)
      → (verify_password small_crypto stored_hash other ≡ true)
        ↔ (small_crypto.argon2_key other "0123456789abcdef" ≡ "k123456789abcdef0123456789abcdef"))
    × (verify_password small_crypto stored_hash "correct horse battery" ≡ true)
unfolding hash_password
verify_hashed_example =
    verify_hashed small_crypto 1 "correct horse battery" stored_hash "0123456789abcdef" refl refl
      refl refl refl refl refl refl refl refl refl refl
