-- ===== src/Tokens.antt =====
-- Approval tokens: approval_token_for_challenge (py/src/lg_orch/api/approvals.py), which signs one,
-- and _coerce_approval_token (py/src/lg_orch/nodes/executor.py), which takes one out of loosely typed
-- data. The secret of the environment, the clock, the nonce and the HMAC digest are parameters.
pub mod Signed
mod Examples
use lula.Prelude.{
  ℕ, String, Bool, true, false, not, ◌&&◌, Option, none, some, List, [], ◌∷◌, if◌then◌else◌, length,
  all, ◌==◌,
}
use lula.Prelude.Texts.{strip, is_blank, append, split, prepend, strip_parts}

pub record ApprovalToken : Type 0 where
  pub challenge_id : String
  pub token : String

-- What may stand where a token is expected: no dict, or a dict with the two entries, where they are
-- texts.
pub data RawToken : Type 0 where
  no_dict : RawToken
  dict : (challenge_id token : Option String) → RawToken

-- An entry that is a text and not blank, stripped.
pub non_empty_str : Option String → Option String
non_empty_str none = none
non_empty_str (some s) = if is_blank (strip s) then none else some (strip s)

-- b'.' and b'|'
abbrev pub dot : ℕ
dot = 46

abbrev pub pipe : ℕ
pipe = 124

pub all_parts : List String → Bool
all_parts parts = all (λ p. not (is_blank p)) parts

pub coerce_parts : String → String → Option ApprovalToken
coerce_parts challenge_id token =
    let dot_parts = split dot token in
    let pipe_parts = split pipe token in
    let found : ApprovalToken = record { challenge_id = challenge_id; token = token } in
    if length dot_parts == 4
    then (if all_parts dot_parts then some found else none)
    else if length pipe_parts == 4
    then (if all_parts pipe_parts then some found else none)
    else if length dot_parts == 1 && length pipe_parts == 1
    then some found
    else none

coerce_texts : Option String → Option String → Option ApprovalToken
coerce_texts none token = none
coerce_texts (some challenge_id) none = none
coerce_texts (some challenge_id) (some token) = coerce_parts challenge_id token

pub coerce_approval_token : RawToken → Option ApprovalToken
unfolding coerce_texts
coerce_approval_token no_dict = none
coerce_approval_token (dict challenge_id token) =
    coerce_texts (non_empty_str challenge_id) (non_empty_str token)

-- What a signature takes from its surroundings. `digest secret message` is the hexadecimal HMAC.
pub record Signer : Type 0 where
  pub secret : String
  pub iat : String
  pub nonce : String
  pub digest : String → String → String

pub signature : Signer → String → String
signature k challenge_id =
    k.digest k.secret (append challenge_id (append "|" (append k.iat (append "|" k.nonce))))

pub approval_token_for_challenge : Signer → String → String
approval_token_for_challenge k challenge_id =
    if is_blank k.secret
    then append "approve:" challenge_id
    else append challenge_id (
        append "."
          (append k.iat (append "." (append k.nonce (append "." (signature k challenge_id))))))

-- What a token on concrete input computes with.
unfoldable pub tokens_parts : Unit {0}
unfolding append signature approval_token_for_challenge split prepend is_blank all_parts
    coerce_parts coerce_texts coerce_approval_token non_empty_str strip_parts
tokens_parts = tt
