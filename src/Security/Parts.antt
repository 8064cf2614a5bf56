-- ===== src/Security/Parts.antt =====
-- The parts of a text between dollar signs, as Verify of backend/internal/security/password/password.go
-- takes them.
use Prim.Native.String.{String, [], ◌∷◌}
use text.Mathlib.TextLemmas.{nil-append, cons-append, append_assoc}
use vps_billing_codex.Shared.{◌≡◌, ◌∙◌, ap, sym, Bool, false, ◌||◌, [], ◌∷◌, arith, ◌&◌, refl}
use vps_billing_codex.Security.{is_dollar, split_at_dollar}

abbrev pub has_dollar : String → Bool
has_dollar [] = false
has_dollar (x ∷ s) = is_dollar x || has_dollar s

pub split_at_dollar-plain : (s : String) → has_dollar s ≡ false → split_at_dollar s ≡ s ∷ []
unfolding split_at_dollar
split_at_dollar-plain [] h = refl
split_at_dollar-plain (x ∷ s) h = ground (arith, split_at_dollar-plain s)

pub split_at_dollar-append :
    (s t : String) → has_dollar s ≡ false → split_at_dollar (s & ("$" & t)) ≡ s ∷ split_at_dollar t
unfolding split_at_dollar
split_at_dollar-append [] t h =
    ap split_at_dollar
      (nil-append ("$" & t) ∙ cons-append "$" "" t ∙ ap (λ u. "$" ∷ u) (nil-append t))
split_at_dollar-append (x ∷ s) t h =
    ap split_at_dollar (cons-append x s ("$" & t)) ∙ ground (arith, split_at_dollar-append s t)

-- The six parts of a text with five dollar signs, the first of them at its start.
pub split_at_dollar-six :
    (a b c d e : String)
    → has_dollar a ≡ false
    → has_dollar b ≡ false
    → has_dollar c ≡ false
    → has_dollar d ≡ false
    → has_dollar e ≡ false
    → split_at_dollar ("" & ("$" & (a & ("$" & (b & ("$" & (c & ("$" & (d & ("$" & e))))))))))
      ≡ "" ∷ a ∷ b ∷ c ∷ d ∷ e ∷ []
split_at_dollar-six a b c d e ha hb hc hd he =
    split_at_dollar-append "" _ refl
    ∙ ap (λ t. "" ∷ t)
        (split_at_dollar-append a _ ha
          ∙ ap (λ t. a ∷ t)
              (split_at_dollar-append b _ hb
                ∙ ap (λ t. b ∷ t)
                    (split_at_dollar-append c _ hc
                      ∙ ap (λ t. c ∷ t)
                          (split_at_dollar-append d _ hd
                            ∙ ap (λ t. d ∷ t) (split_at_dollar-plain e he)))))

-- The text that Hash writes, by the five dollar signs.
pub hash_prefix :
    (t : String) → "$argon2id$v=19$" & t ≡ "" & ("$" & ("argon2id" & ("$" & ("v=19" & ("$" & t)))))
hash_prefix t =
    append_assoc "$argon2id$v=19" "$" t
    ∙ append_assoc "$argon2id$" "v=19" ("$" & t)
    ∙ append_assoc "$argon2id" "$" ("v=19" & ("$" & t))
    ∙ append_assoc "$" "argon2id" ("$" & ("v=19" & ("$" & t)))
    ∙ sym (nil-append ("$" & ("argon2id" & ("$" & ("v=19" & ("$" & t))))))
