-- ===== src/Auth/Audiences.antt =====
-- The audience under which a token is accepted.
use maas_site_manager.Common.{
  ℕ, ◌≡◌, refl, ap, ◌⊎◌, String, true, Option, none, some, List, [], ◌∷◌, any, arith, Bool-cases,
  inl, inr, subst, sym, ◌∙◌,
}
use maas_site_manager.Common.Result.{Result, ok, raise}
use maas_site_manager.Sites.Tables.{TokenAudience, TokenPurpose, audience_eq}
use maas_site_manager.Sites.Tables
use maas_site_manager.Auth.{
  Jose, Payload, Comparison, same, other, unknown_value, compare_purpose, has_required,
  check_purpose, check_payload, subject_id, with_audience, answer, Decoded, token, invalid_token,
  value_error_raised, decode, auth_id_from_token_multi_aud,
}

audience_eq_refl : (a : TokenAudience) → audience_eq a a ≡ true
audience_eq_refl Tables.api = refl
audience_eq_refl Tables.site = refl
audience_eq_refl Tables.worker = refl

payload_checked :
    (purpose : Option TokenPurpose) (o : Option Payload) (p : Payload)
    → check_payload purpose o ≡ token p
    → has_required p ≡ true
payload_checked purpose none p h = cc
payload_checked purpose (some q) p h = elim (Bool-cases (has_required q)) [
  | inr lacking ↦ let run : check_payload purpose (some q) ≡ invalid_token = rw lacking refl in cc
  | inl full ↦
      let run : check_payload purpose (some q) ≡ check_purpose purpose q = rw full refl in
      subst (λ x. has_required x ≡ true) (kept purpose q (sym run ∙ h)) full
]
  where
    kept : (w : Option TokenPurpose) (x : Payload) → check_purpose w x ≡ token p → x ≡ p
    kept none x e = cc
    kept (some w) x e = kept_as (compare_purpose x.purpose w) x e
      where
        kept_as :
            (c : Comparison) (y : Payload)
            → elim c as (λ z. Decoded) [
              | same ↦ token y
              | other ↦ invalid_token
              | unknown_value ↦ value_error_raised
            ]
              ≡ token p
            → y ≡ p
        kept_as same y g = cc
        kept_as other y g = cc
        kept_as unknown_value y g = cc

module _ (jose : Jose) (uuid : String → Option ℕ) (purpose : Option TokenPurpose)
    (encoded : String) where
  abbrev pub IsAccepted : TokenAudience → Type 0
  IsAccepted b =
      (p : Payload) × (decode jose uuid encoded (some b) purpose ≡ token p)
      × (has_required p ≡ true)

  with_audience-ok :
      (a b : TokenAudience) (r : Result ℕ) (id : ℕ)
      → with_audience jose uuid a r ≡ ok (id, b)
      → a ≡ b
  with_audience-ok a b (ok k) id h = cc
  with_audience-ok a b (raise e) id h = cc

  decoded-cases :
      (a : TokenAudience) (rest : Result (ℕ × TokenAudience)) (d : Decoded)
      → ((p : Payload) × (d ≡ token p)) ⊎ (answer jose uuid a rest d ≡ rest)
  decoded-cases a rest (token p) = inl (p, refl)
  decoded-cases a rest invalid_token = inr refl
  decoded-cases a rest value_error_raised = inr refl

  -- An audience that is answered is one of the list, and the token was decoded for it with every
  -- required entry.
  pub multi_aud_sound :
      (audiences : List TokenAudience) (id : ℕ) (b : TokenAudience)
      → auth_id_from_token_multi_aud jose uuid audiences purpose encoded ≡ ok (id, b)
      → (any (λ a. audience_eq a b) audiences ≡ true) × IsAccepted b
  unfolding auth_id_from_token_multi_aud
  multi_aud_sound [] id b h = cc
  multi_aud_sound (a ∷ audiences) id b h =
      let rest = auth_id_from_token_multi_aud jose uuid audiences purpose encoded in
      elim (decoded-cases a rest (decode jose uuid encoded (some a) purpose)) [
        | inl (p, decoded) ↦
            let same_audience : a ≡ b =
              with_audience-ok a b (subject_id jose uuid p) id
                (sym (ap (answer jose uuid a rest) decoded) ∙ h) in
            (
              rw (sym same_audience) (rw (audience_eq_refl a) refl),
              subst IsAccepted same_audience
                  (p, decoded, payload_checked purpose (jose encoded (some a)) p decoded),
            )
        | inr skipped ↦
            let (member_of, accepted) = multi_aud_sound audiences id b (sym skipped ∙ h) in
            (ground arith, accepted)
      ]
