-- ===== src/Screens/GrantAccess/Justified.antt =====
-- What a grant that is sent says.
use warder.Base.{
  ◌≡◌, refl, arith, ◌⊎◌, inl, inr, Bool, true, false, ◌&&◌, ◌||◌, Bool-cases, Option, none, some,
  List, map, Text, lit, text_eq, is_empty, trim, trim-trim, and_parts, one_of, Json, str, arr,
  array_of, field?, prop?,
}
use warder.Screens.GrantAccess.{
  GrantForm, subject_parts, capabilities_of, say, access_body, grant_call, send_grant, submit_for,
  submit_grant,
}
use warder.Screens.Shared.{Call, expiry_of}

-- The body names a subject, gives at least one capability, and a reason that is not blank if reading is
-- among them.
pub record IsJustified (body : Option Json) : Type 0 where
  pub subject_type : Text
  pub subject_id : Text
  pub capabilities : List Text
  pub reason : Text
  pub type_sent : prop? (lit "subjectType") body ≡ some (str subject_type)
  pub id_sent : prop? (lit "subjectId") body ≡ some (str subject_id)
  pub capabilities_sent :
      prop? (lit "capabilities") body ≡ some (arr (array_of (map str capabilities)))
  pub reason_sent : prop? (lit "reason") body ≡ some (str reason)
  pub type_given : is_empty subject_type ≡ false
  pub id_given : is_empty subject_id ≡ false
  pub some_capability : is_empty capabilities ≡ false
  pub reason_given : one_of capabilities (lit "READ_SECRET") ≡ true → is_empty (trim reason) ≡ false

-- What a form lacks.
pub data IsLacking (iso : Text → Option Text) (subject : Text × Text) (d : GrantForm) : Type 0 where
  no_subject : (is_empty subject.0 || is_empty subject.1) ≡ true → IsLacking iso subject d
  no_capability : d.can_use ≡ false → d.can_reveal ≡ false → IsLacking iso subject d
  no_reason : d.can_reveal ≡ true → is_empty (trim d.reason) ≡ true → IsLacking iso subject d
  no_time : expiry_of iso d.expires_at ≡ none → IsLacking iso subject d

-- A submission that is refused in the browser for what the form lacks, and one that is sent.
pub record IsRefusedHere (iso : Text → Option Text) (subject : Text × Text) (d : GrantForm)
    (p : GrantForm × Option Call) : Type 0 where
  pub why : IsLacking iso subject d
  pub no_call : p.1 ≡ none
  pub says : (message : Text) × ((p.0).error ≡ some message)
  pub idle : ((p.0).pending ≡ d.pending) ⊎ ((p.0).pending ≡ false)

pub record IsGrantSent (p : GrantForm × Option Call) : Type 0 where
  pub call : Call
  pub sent : p.1 ≡ some call
  pub justified : IsJustified call.options.body
  pub waits : (p.0).pending ≡ true
  pub quiet : (p.0).error ≡ none

reveal-among :
    (can_use can_reveal : Bool)
    → one_of (capabilities_of can_use can_reveal) (lit "READ_SECRET") ≡ true
    → can_reveal ≡ true
unfolding capabilities_of one_of lit text_eq
reveal-among true true h = refl
reveal-among true false h = h
reveal-among false true h = refl
reveal-among false false h = h

no_capabilities :
    (can_use can_reveal : Bool)
    → is_empty (capabilities_of can_use can_reveal) ≡ true
    → (can_use ≡ false) × (can_reveal ≡ false)
unfolding capabilities_of is_empty
no_capabilities true true h = cc
no_capabilities true false h = cc
no_capabilities false true h = cc
no_capabilities false false h = (refl, refl)

module _ (iso : Text → Option Text) (project_id : Text) (subject : Text × Text)
    (d : GrantForm) where
  body-IsJustified :
      (expires_at : Text)
      → (is_empty subject.0 || is_empty subject.1) ≡ false
      → is_empty (capabilities_of d.can_use d.can_reveal) ≡ false
      → (d.can_reveal && is_empty (trim d.reason)) ≡ false
      → IsJustified (some (access_body iso project_id subject d expires_at))
  unfolding access_body prop? field? lit text_eq
  body-IsJustified expires_at named some_capability justified = record {
    subject_type = subject.0;
    subject_id = subject.1;
    capabilities = capabilities_of d.can_use d.can_reveal;
    reason = trim d.reason;
    type_sent = refl;
    id_sent = refl;
    capabilities_sent = refl;
    reason_sent = refl;
    type_given = ground (arith, named);
    id_given = ground (arith, named);
    some_capability = some_capability;
    reason_given = λ h.
        let reveals = reveal-among d.can_use d.can_reveal h in
        rw (trim-trim d.reason) (rw reveals at justified);
  }

  send_cases :
      (e : Option Text)
      → expiry_of iso d.expires_at ≡ e
      → d.error ≡ none
      → (is_empty subject.0 || is_empty subject.1) ≡ false
      → is_empty (capabilities_of d.can_use d.can_reveal) ≡ false
      → (d.can_reveal && is_empty (trim d.reason)) ≡ false
      → IsRefusedHere iso subject d (send_grant iso project_id subject d e)
        ⊎ IsGrantSent (send_grant iso project_id subject d e)
  unfolding send_grant say grant_call
  send_cases none read quiet named some_capability justified =
      inl (record { why = no_time read; no_call = refl; says = (_, refl); idle = inr refl })
  send_cases (some expires_at) read quiet named some_capability justified = inr (record {
    call = grant_call iso project_id subject d expires_at;
    sent = refl;
    justified = body-IsJustified expires_at named some_capability justified;
    waits = refl;
    quiet = quiet;
  })

  submit_for_cases :
      d.error ≡ none
      → IsRefusedHere iso subject d (submit_for iso project_id subject d)
        ⊎ IsGrantSent (submit_for iso project_id subject d)
  unfolding submit_for say
  submit_for_cases quiet = elim (Bool-cases (is_empty subject.0 || is_empty subject.1)) [
    | inl e ↦
        rw e
          (inl (record { why = no_subject e; no_call = refl; says = (_, refl); idle = inl refl }))
    | inr named ↦ elim (Bool-cases (is_empty (capabilities_of d.can_use d.can_reveal))) [
      | inl e ↦
          rw (named, e)
            (inl (record {
              why =
                  no_capability (no_capabilities d.can_use d.can_reveal e).0
                    (no_capabilities d.can_use d.can_reveal e).1;
              no_call = refl;
              says = (_, refl);
              idle = inl refl;
            }))
      | inr some_capability ↦ elim (Bool-cases (d.can_reveal && is_empty (trim d.reason))) [
        | inl e ↦
            rw (named, some_capability, e)
              (inl (record {
                why = no_reason (and_parts _ _ e).0 (and_parts _ _ e).1;
                no_call = refl;
                says = (_, refl);
                idle = inl refl;
              }))
        | inr justified ↦
            rw (named, some_capability, justified)
              (send_cases (expiry_of iso d.expires_at) refl quiet named some_capability justified)
      ]
    ]
  ]

-- The grant dialog never asks the server for a grant without a subject, without a capability, or for
-- reading values without a reason that is not blank. It holds back only a form that lacks one of
-- these or whose expiry cannot be written; then it says so, and does not start to wait.
pub submit_grant-IsJustified :
    (iso : Text → Option Text) (project_id : Text) (d : GrantForm)
    → IsRefusedHere iso
        (subject_parts d.subject)
        (record d { error = none })
        (submit_grant iso project_id d)
      ⊎ IsGrantSent (submit_grant iso project_id d)
unfolding submit_grant
submit_grant-IsJustified iso project_id d =
    submit_for_cases iso project_id (subject_parts d.subject) (record d { error = none }) refl
