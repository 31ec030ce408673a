-- ===== src/Http/Signatures.antt =====
-- What a signed request is, apart from how middleware.go compares it.
use asset_repayment_service.Prelude.{◌≡◌, ◌≢◌, false, ◌⊎◌, inl, inr, [], arith, Bool-cases}
use asset_repayment_service.Prelude.Text.{Str, text, str_eq, str_eq→eq, trim_space, trim_prefix}
use asset_repayment_service.Money.Currency.{Unicode, to_lower}
use asset_repayment_service.Http.Middleware.{Request, Hmac, signature_matches}

module _ ⦃u : Unicode⦄ ⦃h : Hmac⦄ where
  -- The header with the signature is empty up to spaces, or what it holds, without the prefix
  -- "sha256=" and in lower case, is not the digest of the body under the secret.
  abbrev pub IsUnsigned : Str → Request → Type 0
  IsUnsigned secret r =
      (trim_space r.signature ≡ [])
      ⊎ (to_lower (trim_prefix (trim_space r.signature) (text "sha256="))
          ≢ h.hex_digest secret r.body)

  pub unsigned-refused :
      (secret : Str) (r : Request) → IsUnsigned secret r → signature_matches secret r ≡ false
  unfolding signature_matches
  unsigned-refused secret r (inl missing) = rw (missing, signature_matches)
  unsigned-refused secret r (inr wrong) =
      let provided = to_lower (trim_prefix (trim_space r.signature) (text "sha256=")) in
      let digest = h.hex_digest secret r.body in
      elim (Bool-cases (str_eq provided digest)) [
        | inl equal ↦ absurd (wrong (str_eq→eq provided digest equal))
        | inr other ↦ ground arith
      ]
