-- ===== src/Approval/Roles.antt =====
-- What a role policy approves.
use lula.Prelude.{
  String, ◌≡◌, ◌≢◌, ◌↔◌, refl, Bool, true, false, ◌&&◌, ◌||◌, Option, none, some, List, [], ◌∷◌,
  ◌++◌, arith, eq_iff, if◌then◌else◌, any, all, str_eq_self,
}
use lula.Prelude.Members.{contains}
use lula.Approval.{
  RoleApprovalPolicy, ApprovalVote, approved, is_approve, in_roles, rejects, approving_roles,
  evaluate_role, role_list,
}

-- Some vote approves in the role `r`.
abbrev pub has_approval : String → List ApprovalVote → Bool
has_approval r votes = any (λ v. is_approve v && in_roles (r ∷ []) v.role) votes

contains-one_vote :
    (roles : List String) (r : String) (b : Bool) (role : Option String) (rest : List String)
    → contains r roles ≡ true
    → contains r (if b && in_roles roles role then role_list role ++ rest else rest)
      ≡ (b && in_roles (r ∷ []) role) || contains r rest
unfolding contains
contains-one_vote roles r b none rest h = ground arith
contains-one_vote roles r b (some x) rest h = ground (arith, eq_iff x r, eq_iff r x)

approving_roles-has_approval :
    (roles : List String) (r : String) (votes : List ApprovalVote)
    → contains r roles ≡ true
    → contains r (approving_roles roles votes) ≡ has_approval r votes
unfolding approving_roles any contains
approving_roles-has_approval roles r [] h = refl
approving_roles-has_approval roles r (v ∷ votes) h = ground (
  arith,
  contains-one_vote roles r (is_approve v) v.role (approving_roles roles votes) h,
  approving_roles-has_approval roles r votes,
)

all-approved :
    (roles rs : List String) (votes : List ApprovalVote)
    → ((r : String) → contains r rs ≡ true → contains r roles ≡ true)
    → all (λ r. contains r (approving_roles roles votes)) rs ≡ all (λ r. has_approval r votes) rs
unfolding all contains
all-approved roles [] votes h = refl
all-approved roles (x ∷ rs) votes h = ground (
  arith,
  approving_roles-has_approval roles x votes,
  h x,
  str_eq_self x,
  all-approved roles rs votes (λ r m. h r (ground arith)),
)

-- A policy that wants all roles approves exactly if it names a role, no voter in one of its roles
-- rejects, and each of its roles has a vote that approves.
pub evaluate_role-all :
    (p : RoleApprovalPolicy) (votes : List ApprovalVote)
    → p.require_all_roles ≡ true
    → (evaluate_role p votes ≡ approved) ↔ (
        (p.required_roles ≢ [])
        × (any (rejects p.required_roles) votes ≡ false)
        × (all (λ r. has_approval r votes) p.required_roles ≡ true))
unfolding evaluate_role
evaluate_role-all p votes every =
    let same = all-approved p.required_roles p.required_roles votes (λ r m. m) in
    (λ h. (ground arith, ground arith, ground (arith, same)), λ h. ground (arith, same))
