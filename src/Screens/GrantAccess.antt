-- ===== src/Screens/GrantAccess.antt =====
-- web/components/grant-access-dialog.tsx: the dialog that grants access to the secrets of an environment.
pub mod Justified
use mathlib.Core.Option
use warder.Base.{
  Bool, true, false, ◌&&◌, ◌||◌, Option, none, some, List, [], ◌∷◌, ◌++◌, map, Text, lit, is_empty,
  trim, cut_at, if◌then◌else◌, Json, str, arr, object, array_of,
}
use warder.Screens.Shared.{Call, expiry_of}

pub record GrantForm : Type 0 where
  pub is_open : Bool
  pub subject : Text
  pub environment_id : Text
  pub can_use : Bool
  pub can_reveal : Bool
  pub expires_at : Text
  pub reason : Text
  pub error : Option Text
  pub pending : Bool

-- The text before the next colon, or all of it.
unfoldable pub first_part : Text → Text
first_part s = elim (cut_at b':' s) [ none ↦ s | some p ↦ p.0 ]

-- `subject.split(":")`, of which the first two parts are taken. A missing second part counts as an empty
-- one: both are false in the test behind it.
unfoldable pub subject_parts : Text → Text × Text
unfolding first_part
subject_parts s = elim (cut_at b':' s) [ none ↦ (s, []) | some p ↦ (p.0, first_part p.1) ]

unfoldable pub capabilities_of : Bool → Bool → List Text
capabilities_of can_use can_reveal =
    (if can_use then lit "USE_SECRET" ∷ [] else [])
    ++ (if can_reveal then lit "READ_SECRET" ∷ [] else [])

unfoldable pub say : Text → GrantForm → GrantForm
say message d = record d { error = some message }

module _ (iso : Text → Option Text) (project_id : Text) where
  unfoldable pub access_body : Text × Text → GrantForm → Text → Json
  unfolding capabilities_of
  access_body subject d expires_at = object (
      (lit "subjectType", some (str subject.0))
      ∷ (lit "subjectId", some (str subject.1))
      ∷ (lit "environmentId", some (str d.environment_id))
      ∷ (
        lit "capabilities",
        some (arr (array_of (map str (capabilities_of d.can_use d.can_reveal)))),
      )
      ∷ (lit "expiresAt", some (str expires_at))
      ∷ (lit "reason", some (str (trim d.reason)))
      ∷ [])

  unfoldable pub grant_call : Text × Text → GrantForm → Text → Call
  unfolding access_body
  grant_call subject d expires_at = record {
    path = lit "/api/projects/" ++ (project_id ++ lit "/access");
    options = record { method = some (lit "POST"); body = some (access_body subject d expires_at) };
  }

  -- The part behind the checks: the request, or the failure to write the expiry.
  unfoldable pub send_grant : Text × Text → GrantForm → Option Text → GrantForm × Option Call
  unfolding say grant_call
  send_grant subject d none = (record (say (lit "Invalid time value") d) { pending = false }, none)
  send_grant subject d (some expires_at) =
      (record d { pending = true }, some (grant_call subject d expires_at))

  unfoldable pub submit_for : Text × Text → GrantForm → GrantForm × Option Call
  unfolding send_grant say capabilities_of
  submit_for subject d =
      if is_empty subject.0 || is_empty subject.1
      then (say (lit "Choose who this grant is for.") d, none)
      else if is_empty (capabilities_of d.can_use d.can_reveal)
      then (say (lit "Choose at least one capability.") d, none)
      else if d.can_reveal && is_empty (trim d.reason)
      then (say (lit "Give a reason when granting permission to see values.") d, none)
      else send_grant subject d (expiry_of iso d.expires_at)

  unfoldable pub submit_grant : GrantForm → GrantForm × Option Call
  unfolding submit_for
  submit_grant d = submit_for (subject_parts d.subject) (record d { error = none })

-- The answer: the grant was made, or the message of the exception.
unfoldable pub granted : GrantForm → GrantForm
granted d = record d { is_open = false; reason = []; can_reveal = false; pending = false }

unfoldable pub not_granted : Text → GrantForm → GrantForm
not_granted message d = record d { error = some message; pending = false }

unfoldable pub granted_message : Bool → Text
granted_message can_reveal =
    if can_reveal
    then lit
        "Access granted, including permission to see values. This is recorded in the audit trail."
    else lit "Access granted. The value stays hidden."
