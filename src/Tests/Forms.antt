-- ===== src/Tests/Forms.antt =====
-- The dialogs that grant access and make a token, and the page of an invitation.
use warder.Base.{
  ◌≡◌, ◌⊎◌, refl, Bool, true, false, Option, none, some, List, [], ◌∷◌, Text, lit, runs, AllFit,
}
use warder.Screens.AcceptInvitation.{
  Invitation, Acceptance, unread, arrive, submit_acceptance, join_with_account,
}
use warder.Screens.AcceptInvitation.Fragment.{left}
use warder.Screens.AcceptInvitation.Joining.{
  IsKept, IsUnclaimed, IsAccepting, IsClaiming, submit_acceptance-IsAccepting,
}
use warder.Screens.CreateToken.{unopened}
use warder.Screens.CreateToken.Held.{
  Event, open_changed, named, submitted, answered, copied, handle, IsTimely, IsHeldOpen,
  runs-IsHeldOpen,
}
use warder.Screens.SignUp.{SignUpForm, submit_signup}
use warder.Screens.SignUp.Bounds.{IsLongSent, IsShortKept, submit_signup-IsLongSent}
use warder.Screens.GrantAccess.{GrantForm, subject_parts, submit_grant}
use warder.Screens.GrantAccess.Justified.{IsRefusedHere, IsGrantSent, submit_grant-IsJustified}

abbrev as_it_is : Text → Option Text
as_it_is t = some t

abbrev grant_form : GrantForm
grant_form = record {
  is_open = true;
  subject = lit "MACHINE:42";
  environment_id = lit "dev";
  can_use = true;
  can_reveal = true;
  expires_at = [];
  reason = lit " outage ";
  error = none;
  pending = false;
}

submit_grant-IsJustified_example :
    IsRefusedHere as_it_is
      (subject_parts grant_form.subject)
      grant_form
      (submit_grant as_it_is (lit "p") grant_form)
    ⊎ IsGrantSent (submit_grant as_it_is (lit "p") grant_form)
submit_grant-IsJustified_example = submit_grant-IsJustified as_it_is (lit "p") grant_form

abbrev token_events : List Event
token_events =
    open_changed true
    ∷ named (lit "deploy")
    ∷ submitted
    ∷ answered (lit "wt_1")
    ∷ copied true
    ∷ open_changed false
    ∷ []

answered-open :
    AllFit
      (handle as_it_is (lit "p"))
      (IsTimely as_it_is (lit "p"))
      token_events
      (unopened (lit "dev" ∷ []))
unfolding handle warder.Screens.CreateToken.change_open warder.Screens.CreateToken.submit_token
    warder.Screens.CreateToken.send_token warder.Screens.Shared.expiry_of warder.Base.is_empty
    unopened
answered-open = (tt, (tt, (tt, (refl, (tt, (tt, tt))))))

runs-IsHeldOpen_example :
    IsHeldOpen as_it_is
      (lit "p")
      (runs (handle as_it_is (lit "p")) token_events (unopened (lit "dev" ∷ [])))
runs-IsHeldOpen_example =
    runs-IsHeldOpen as_it_is (lit "p") token_events (lit "dev" ∷ []) answered-open

abbrev known : Invitation
known = record {
  organization = lit "Acme";
  role = lit "DEVELOPER";
  email = lit "ada@example.org";
  account_exists = true;
  can_claim = false;
}

abbrev arrived : Acceptance
arrived = (arrive (unread (lit "#token"))).0

submit_acceptance-IsAccepting_example :
    (IsKept arrived (submit_acceptance arrived) ⊎ IsAccepting arrived (submit_acceptance arrived))
    × (IsUnclaimed arrived (join_with_account arrived)
        ⊎ IsClaiming arrived (join_with_account arrived))
submit_acceptance-IsAccepting_example = submit_acceptance-IsAccepting arrived

abbrev sign_up : SignUpForm
sign_up = record {
  name = lit "Ada";
  email = lit "ada@example.org";
  password = lit "correct horse";
  error = none;
  field_errors = [];
  pending = false;
  codes = none;
  acknowledged = false;
  left = 0;
}

submit_signup-IsLongSent_example :
    IsLongSent sign_up (submit_signup sign_up) ⊎ IsShortKept sign_up (submit_signup sign_up)
submit_signup-IsLongSent_example = submit_signup-IsLongSent sign_up
