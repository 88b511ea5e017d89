-- ===== src/Screens/AcceptInvitation/Fragment.antt =====
-- Where the token of an invitation is left.
use warder.Base.{◌≡◌, ◌⊎◌, true, false, none, some, [], Text}
use warder.Screens.AcceptInvitation.{
  Invitation, Acceptance, inspected, not_inspected, leave, submit_acceptance, join_with_account,
  accepted_as, joined_with_account, not_accepted,
}

-- All that can happen to the page once it is there.
pub data Event : Type 0 where
  looked_up : Invitation → Event
  lookup_failed : Text → Event
  left submitted claimed : Event
  named with_password with_confirmation : Text → Event
  welcomed : Text → Event
  let_in : Event
  turned_away : Text → Event

unfoldable pub handle : Event → Acceptance → Acceptance
handle (looked_up i) s = inspected i s
handle (lookup_failed message) s = not_inspected message s
handle left s = leave s
handle submitted s = (submit_acceptance s).0
handle claimed s = (join_with_account s).0
handle (named name) s = record s { name = name }
handle (with_password password) s = record s { password = password }
handle (with_confirmation confirm) s = record s { confirm = confirm }
handle (welcomed email) s = accepted_as email s
handle let_in s = joined_with_account s
handle (turned_away message) s = not_accepted message s

-- The address has an account, and this browser is not signed in with it.
pub record NeedsSignIn (i : Invitation) : Type 0 where
  pub has_account : i.account_exists ≡ true
  pub elsewhere : i.can_claim ≡ false

-- The address bar is empty, or it never had a token, or its token is needed after signing in.
abbrev pub IsTidy : Acceptance → Type 0
IsTidy s =
    (s.ready ≡ false)
    ⊎ ((s.hash ≡ [])
        ⊎ ((s.token ≡ none) ⊎ ((i : Invitation) × (s.invitation ≡ some i) × NeedsSignIn i)))
