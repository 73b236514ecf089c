-- ===== src/Tokens/Examples.antt =====
-- A token for applying a patch, with a digest that is a constant.
use lula.Prelude.{◌≡◌, refl, String, some}
use lula.Prelude.Texts.{strip_parts}
use lula.Tokens.{Signer, dict, coerce_approval_token, approval_token_for_challenge, tokens_parts}
use lula.Tokens.Signed.{coerce-token_for_challenge}

abbrev signer : Signer
signer = record {
  secret = "secret";
  iat = "1700000000";
  nonce = "ab12";
  digest = λ secret message. "ffee";
}

abbrev challenge : String
challenge = "approval:apply_patch"

made : approval_token_for_challenge signer challenge ≡ "approval:apply_patch.1700000000.ab12.ffee"
unfolding tokens_parts
made = refl

coerce-token_for_challenge_example :
    coerce_approval_token
      (dict (some challenge) (some (approval_token_for_challenge signer challenge)))
    ≡ some
        (record { challenge_id = challenge; token = approval_token_for_challenge signer challenge })
unfolding tokens_parts strip_parts
coerce-token_for_challenge_example =
    coerce-token_for_challenge signer challenge (refl, refl) (refl, refl) (refl, refl) (refl, refl)
