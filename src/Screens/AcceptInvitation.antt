-- ===== src/Screens/AcceptInvitation.antt =====
-- web/components/accept-invitation-form.tsx: the page behind an invitation link, whose token is the
-- fragment of the address.
pub mod Fragment
pub mod Joining
use mathlib.Core.Option
use warder.Base.{
  ◌≡◌, Bool, true, false, ◌&&◌, ◌||◌, not, Option, none, some, List, [], ◌∷◌, ◌++◌, Text, lit,
  text_eq, is_empty, trim, ◌==◌, if◌then◌else◌, Json, str, object,
}
use warder.ClientApi.{ClientOptions}
use warder.Screens.Shared.{Call}

pub record Invitation : Type 0 where
  pub organization : Text
  pub role : Text
  pub email : Text
  pub account_exists : Bool
  pub can_claim : Bool

-- `hash` is that of the address bar. `asked` tells whether the answer to the inspection is awaited; the
-- cleanup of the effect cancels it.
pub record Acceptance : Type 0 where
  pub hash : Text
  pub token : Option Text
  pub ready : Bool
  pub name : Text
  pub password : Text
  pub confirm : Text
  pub error : Option Text
  pub pending : Bool
  pub done : Option Text
  pub joined : Bool
  pub invitation : Option Invitation
  pub asked : Bool

-- `window.location.hash.replace(/^#/, "").trim()`
unfoldable pub drop_hash_sign : Text → Text
drop_hash_sign [] = []
drop_hash_sign (c ∷ s) = if c == b'#' then s else c ∷ s

unfoldable pub fragment_of : Text → Text
unfolding drop_hash_sign
fragment_of hash = trim (drop_hash_sign hash)

unfoldable pub unread : Text → Acceptance
unread hash = record {
  hash = hash;
  token = none;
  ready = false;
  name = [];
  password = [];
  confirm = [];
  error = none;
  pending = false;
  done = none;
  joined = false;
  invitation = none;
  asked = false;
}

unfoldable pub inspect_call : Text → Call
inspect_call fragment = record {
  path = lit "/api/auth/invitations/inspect";
  options = record {
    method = some (lit "POST");
    body = some (object ((lit "token", some (str fragment)) ∷ []));
  };
}

-- The effect of the first render, up to its request.
unfoldable pub arrive : Acceptance → Acceptance × Option Call
unfolding fragment_of inspect_call
arrive s = if is_empty (fragment_of s.hash) then (record s { ready = true }, none) else (
  record s { token = some (fragment_of s.hash); asked = true },
  some (inspect_call (fragment_of s.hash)),
)

-- `replaceState(null, "", pathname)`
unfoldable pub clear_address : Acceptance → Acceptance
clear_address s = record s { hash = [] }

-- Somebody with an account who is not signed in with it on this browser.
unfoldable pub must_sign_in : Invitation → Bool
must_sign_in i = i.account_exists && not i.can_claim

unfoldable pub keep_or_clear : Invitation → Acceptance → Acceptance
unfolding must_sign_in clear_address
keep_or_clear i s = if must_sign_in i then s else clear_address s

-- The answer to the inspection, unless it was cancelled.
unfoldable pub inspected : Invitation → Acceptance → Acceptance
unfolding keep_or_clear
inspected i s =
    if s.asked
    then record (keep_or_clear i (record s { invitation = some i })) { ready = true; asked = false }
    else s

unfoldable pub not_inspected : Text → Acceptance → Acceptance
unfolding clear_address
not_inspected message s =
    if s.asked
    then record (clear_address s) { error = some message; ready = true; asked = false }
    else s

-- The cleanup of the effect.
unfoldable pub leave : Acceptance → Acceptance
leave s = record s { asked = false }

abbrev pub accept_path : Text
accept_path = lit "/api/auth/accept-invitation"

unfoldable pub accept_body : Text → Acceptance → Json
accept_body token s = object (
    (lit "token", some (str token))
    ∷ (lit "name", some (str s.name))
    ∷ (lit "password", some (str s.password))
    ∷ [])

unfoldable pub accept_call : Json → Call
accept_call body = record {
  path = accept_path;
  options = record { method = some (lit "POST"); body = some body };
}

unfoldable pub complain : Text → Acceptance → Acceptance
complain message s = record s { error = some message }

unfoldable pub held_token : Acceptance → Text
held_token s = Option.get_or s.token []

-- `submit` and `join`, up to the request. An empty token counts as none.
unfoldable pub submit_acceptance : Acceptance → Acceptance × Option Call
unfolding complain held_token accept_body accept_call
submit_acceptance s =
    if not (text_eq s.password s.confirm)
    then (complain (lit "Those passwords do not match.") s, none)
    else if is_empty (held_token s)
    then (complain (lit "This link is missing its invitation. Ask for a new one.") s, none)
    else (
      record s { error = none; pending = true },
      some (accept_call (accept_body (held_token s) s)),
    )

unfoldable pub join_with_account : Acceptance → Acceptance × Option Call
unfolding held_token accept_call
join_with_account s = if is_empty (held_token s) then (s, none) else (
  record s { error = none; pending = true },
  some (accept_call (object ((lit "token", some (str (held_token s))) ∷ []))),
)

-- Their answers.
unfoldable pub accepted_as : Text → Acceptance → Acceptance
accepted_as email s = record s { done = some email; pending = false }

unfoldable pub joined_with_account : Acceptance → Acceptance
joined_with_account s = record s { joined = true; pending = false }

unfoldable pub not_accepted : Text → Acceptance → Acceptance
not_accepted message s = record s { error = some message; pending = false }

-- What is on screen.
pub data InvitationPage : Type 0 where
  checking gone_through claiming signing_in all_set no_invitation filling_in : InvitationPage

unfoldable pub text_given : Option Text → Bool
text_given none = false
text_given (some s) = not (is_empty s)

unfoldable pub shown_for : Option Invitation → Acceptance → InvitationPage
unfolding text_given held_token
shown_for o s =
    let rest =
      if text_given s.done
      then all_set
      else if is_empty (held_token s)
      then no_invitation
      else filling_in in
    elim o [
      | none ↦ rest
      | some i ↦ if i.can_claim then claiming else if i.account_exists then signing_in else rest
    ]

unfoldable pub invitation_page : Acceptance → InvitationPage
unfolding shown_for
invitation_page s =
    if not s.ready then checking else if s.joined then gone_through else shown_for s.invitation s
