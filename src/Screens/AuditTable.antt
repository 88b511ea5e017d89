-- ===== src/Screens/AuditTable.antt =====
-- web/components/audit-table.tsx: the list of audit events with its filters.
use mathlib.Core.Option
use warder.Base.{
  Bool, true, false, ◌&&◌, ◌||◌, not, Option, none, some, List, [], ◌∷◌, map, Text, lit, text_eq,
  one_of, includes, is_empty, trim, to_lower, filter, ltb, ◌==◌, if◌then◌else◌,
}

pub record AuditEvent : Type 0 where
  pub id : Text
  pub occurred_at : Text
  pub event_type : Text
  pub outcome : Text
  pub actor_type : Text
  pub actor : Text
  pub secret_key : Text
  pub reason : Text
  pub ip_address : Text

unfoldable pub descriptions : List (Text × Text)
descriptions =
    (lit "SECRET_CREATED", lit "Secret created")
    ∷ (lit "SECRET_ROTATED", lit "Secret rotated")
    ∷ (lit "SECRET_ROLLED_BACK", lit "Rolled back")
    ∷ (lit "SECRET_REVOKED", lit "Version revoked")
    ∷ (lit "SECRET_EXPIRY_CHANGED", lit "Expiry changed")
    ∷ (lit "SECRET_DELETED", lit "Secret deleted")
    ∷ (lit "SECRET_USED", lit "Used by a runtime")
    ∷ (lit "SECRET_REVEAL_REQUESTED", lit "Reveal requested")
    ∷ (lit "SECRET_REVEALED", lit "Value revealed")
    ∷ (lit "TOKEN_CREATED", lit "Token created")
    ∷ (lit "TOKEN_REVOKED", lit "Token revoked")
    ∷ (lit "RUNTIME_AUTHENTICATED", lit "Runtime signed in")
    ∷ (lit "ACCESS_GRANTED", lit "Access granted")
    ∷ (lit "ACCESS_REVOKED", lit "Access revoked")
    ∷ (lit "ACCESS_DENIED", lit "Access denied")
    ∷ (lit "IDENTITY_CREATED", lit "Identity created")
    ∷ (lit "IDENTITY_DISABLED", lit "Identity disabled")
    ∷ (lit "USER_INVITED", lit "Member added")
    ∷ (lit "USER_REMOVED", lit "Member removed")
    ∷ (lit "PROJECT_CREATED", lit "Project created")
    ∷ (lit "ENVIRONMENT_CREATED", lit "Environment created")
    ∷ (lit "LOGIN", lit "Signed in")
    ∷ (lit "LOGIN_FAILED", lit "Sign-in failed")
    ∷ (lit "LOGOUT", lit "Signed out")
    ∷ (lit "DECRYPTION_FAILED", lit "Decryption failed")
    ∷ (lit "RATE_LIMITED", lit "Rate limited")
    ∷ []

unfoldable pub look_up : List (Text × Text) → Text → Option Text
look_up [] key = none
look_up ((k, v) ∷ entries) key =
    let later = look_up entries key in if text_eq k key then some v else later

-- `DESCRIPTIONS[type] ?? type`
unfoldable pub describe : Text → Text
unfolding look_up descriptions
describe event_type = Option.get_or (look_up descriptions event_type) event_type

unfoldable pub is_notable : Text → Bool
is_notable event_type =
    one_of (lit "SECRET_REVEALED" ∷ lit "SECRET_REVEAL_REQUESTED" ∷ lit "ACCESS_GRANTED" ∷ [])
      event_type

-- The entries of a `Set`, in order of insertion.
unfoldable pub add_new : Text → List Text → List Text
add_new t [] = t ∷ []
add_new t (u ∷ us) = let rest = add_new t us in if text_eq u t then u ∷ us else u ∷ rest

unfoldable pub add_all : List Text → List Text → List Text
unfolding add_new
add_all [] present = present
add_all (t ∷ ts) present = add_all ts (add_new t present)

-- The order of `sort()`: by code units.
unfoldable pub not_after : Text → Text → Bool
not_after [] t = true
not_after (c ∷ s) [] = false
not_after (c ∷ s) (d ∷ t) = let rest = not_after s t in if c == d then rest else ltb c d

unfoldable pub insert_text : Text → List Text → List Text
unfolding not_after
insert_text t [] = t ∷ []
insert_text t (u ∷ us) =
    let rest = insert_text t us in if not_after t u then t ∷ u ∷ us else u ∷ rest

unfoldable pub sort_texts : List Text → List Text
unfolding insert_text
sort_texts [] = []
sort_texts (t ∷ ts) = insert_text t (sort_texts ts)

-- The event types of the list, each with its label.
unfoldable pub type_options : List AuditEvent → List (Text × Text)
unfolding add_all sort_texts describe
type_options events =
    map (λ (t : Text). (t, describe t))
      (sort_texts (add_all (map (λ (e : AuditEvent). e.event_type) events) []))

-- A filter that is set and that the value does not meet.
unfoldable pub excludes : Text → Text → Bool
excludes wanted value = not (is_empty wanted) && not (text_eq value wanted)

unfoldable pub event_mentions : Text → AuditEvent → Bool
unfolding describe
event_mentions needle e =
    includes (to_lower e.actor) needle
    || includes (to_lower e.secret_key) needle
    || includes (to_lower (describe e.event_type)) needle

unfoldable pub passes_filters : Text → Text → Text → AuditEvent → Bool
unfolding excludes event_mentions
passes_filters query outcome event_type e =
    let needle = to_lower (trim query) in
    if excludes outcome e.outcome || excludes event_type e.event_type
    then false
    else if is_empty needle
    then true
    else event_mentions needle e

unfoldable pub filtered_events : Text → Text → Text → List AuditEvent → List AuditEvent
unfolding passes_filters
filtered_events query outcome event_type events =
    filter (passes_filters query outcome event_type) events

unfoldable pub any_filter : Text → Text → Text → Bool
any_filter query outcome event_type =
    not (is_empty query) || not (is_empty outcome) || not (is_empty event_type)

pub data OutcomeTone : Type 0 where
  fine waiting_tone problem : OutcomeTone

unfoldable pub outcome_tone : Text → OutcomeTone
outcome_tone outcome =
    if text_eq outcome (lit "SUCCESS")
    then fine
    else if text_eq outcome (lit "DENIED")
    then waiting_tone
    else problem
