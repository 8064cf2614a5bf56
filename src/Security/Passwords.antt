-- ===== src/Security/Passwords.antt =====
-- What Verify of backend/internal/security/password/password.go makes of a text that Hash returned.
use Prim.Native.String.{String, len}
use text.Mathlib.Text.{◌==◌ as str_eq}
use text.Mathlib.TextPositions.{eq_refl}
use text.Mathlib.TextEquality.{eq_iff}
use vps_billing_codex.Security.Parts.{has_dollar, split_at_dollar-six, hash_prefix}
use vps_billing_codex.Shared.{
  ℕ, ◌≡◌, ◌↔◌, ◌∙◌, ap, sym, refl, false, ◌&◌, [], ◌∷◌, true, some, arith, inl, inr, Bool-cases,
  ltb, ◌||◌,
}
use vps_billing_codex.Security.{
  Crypto, hashed, hash_password, verify_password, encoded, parameters, split_at_dollar,
}

parameters-written :
    (c : Crypto)
    → c.decimal 19456 ≡ "19456"
    → c.decimal 2 ≡ "2"
    → c.decimal 1 ≡ "1"
    → parameters c ≡ "m=19456,t=2,p=1"
parameters-written c m t p =
    ap (λ s. "m=" & s & ",t=" & c.decimal 2 & ",p=" & c.decimal 1) m
    ∙ ap (λ s. "m=" & "19456" & ",t=" & s & ",p=" & c.decimal 1) t
    ∙ ap (λ s. "m=" & "19456" & ",t=" & "2" & ",p=" & s) p

no_name : has_dollar "argon2id" ≡ false
no_name = refl

no_version : has_dollar "v=19" ≡ false
no_version = refl

no_settings : has_dollar "m=19456,t=2,p=1" ≡ false
no_settings = refl

encoded-parts :
    (c : Crypto) (salt key : String)
    → parameters c ≡ "m=19456,t=2,p=1"
    → has_dollar (c.base64 salt) ≡ false
    → has_dollar (c.base64 key) ≡ false
    → split_at_dollar (encoded c salt key)
      ≡ "" ∷ "argon2id" ∷ "v=19" ∷ "m=19456,t=2,p=1" ∷ c.base64 salt ∷ c.base64 key ∷ []
encoded-parts c salt key written salt_plain key_plain =
    ap
      (λ (p : String).
        split_at_dollar ("$argon2id$v=19$" & p & "$" & c.base64 salt & "$" & c.base64 key))
      written
    ∙ ap split_at_dollar
        (hash_prefix ("m=19456,t=2,p=1" & "$" & c.base64 salt & "$" & c.base64 key))
    ∙ split_at_dollar-six "argon2id" "v=19" "m=19456,t=2,p=1" (c.base64 salt) (c.base64 key) no_name
        no_version no_settings salt_plain key_plain

-- Where Sprintf writes 19456, 2 and 1 in decimal, Sscanf reads m=19456,t=2,p=1 as these three, the
-- base64 texts of the salt and the key have no dollar sign and are undone by the decoder, and the salt
-- and the key have 16 and 32 bytes: Verify on the text that Hash returned accepts exactly the passwords
-- that have the same key under the salt, and so the password itself.
pub verify_hashed :
    (c : Crypto) (n : ℕ) (value stored salt : String)
    → hash_password c n value ≡ hashed stored
    → c.random n 16 ≡ some salt
    → c.decimal 19456 ≡ "19456"
    → c.decimal 2 ≡ "2"
    → c.decimal 1 ≡ "1"
    → c.scan_parameters "m=19456,t=2,p=1" ≡ some (19456, 2, 1)
    → has_dollar (c.base64 salt) ≡ false
    → has_dollar (c.base64 (c.argon2_key value salt)) ≡ false
    → c.base64_decoded (c.base64 salt) ≡ some salt
    → c.base64_decoded (c.base64 (c.argon2_key value salt)) ≡ some (c.argon2_key value salt)
    → len salt ≡ 16
    → len (c.argon2_key value salt) ≡ 32
    → ((other : String)
        → (verify_password c stored other ≡ true)
          ↔ (c.argon2_key other salt ≡ c.argon2_key value salt))
      × (verify_password c stored value ≡ true)
unfolding hash_password verify_password
verify_hashed c n value stored salt made read memory_text iterations_text parallelism_text scan
      salt_plain key_plain salt_back key_back salt_long key_long =
    elim (Bool-cases (ltb (c.rune_count value) 12 || ltb 128 (c.rune_count value))) [
      | inl refused ↦ absurd (ground (arith, refused, made))
      | inr fits ↦
          let key = c.argon2_key value salt in
          let split =
            encoded-parts c salt key
              (parameters-written c memory_text iterations_text parallelism_text) salt_plain
              key_plain in
          let same : (other : String)
              → verify_password c stored other ≡ str_eq (c.argon2_key other salt) key =
            λ other.
              ground
                (arith, fits, read, made, split, scan, salt_back, key_back, salt_long, key_long) in
          (
            λ other. (
              λ yes_. (eq_iff (c.argon2_key other salt) key).0 (sym (same other) ∙ yes_),
              λ equal. same other ∙ (eq_iff (c.argon2_key other salt) key).1 equal,
            ),
            same value ∙ eq_refl key,
          )
    ]
