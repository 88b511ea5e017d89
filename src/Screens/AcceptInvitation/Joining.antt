-- ===== src/Screens/AcceptInvitation/Joining.antt =====
-- What the page sends with the token of an invitation.
use mathlib.Core.Option
use warder.Base.{
  ◌≡◌, refl, arith, ◌≢◌, ◌⊎◌, inl, inr, true, false, not, Bool-cases, Option, none, some, [], ◌∷◌,
  Text, lit, text_eq, text_eq_iff, is_empty, str, object, field?, prop?,
}
use warder.Screens.AcceptInvitation.{
  Acceptance, accept_body, accept_call, complain, held_token, submit_acceptance, join_with_account,
}
use warder.Screens.Shared.{Call}

-- There is no token to send.
abbrev pub IsTokenless : Acceptance → Type 0
IsTokenless s = (s.token ≡ none) ⊎ (s.token ≡ some [])

-- Nothing is sent, of a form whose passwords differ or that has no token; and of one that has no token.
pub record IsKept (s : Acceptance) (p : Acceptance × Option Call) : Type 0 where
  pub no_call : p.1 ≡ none
  pub why : (s.password ≢ s.confirm) ⊎ IsTokenless s

pub record IsUnclaimed (s : Acceptance) (p : Acceptance × Option Call) : Type 0 where
  pub no_call : p.1 ≡ none
  pub why : IsTokenless s

-- The token goes out with the password that was confirmed, for a new account.
pub record IsAccepting (s : Acceptance) (p : Acceptance × Option Call) : Type 0 where
  pub call : Call
  pub token : Text
  pub sent : p.1 ≡ some call
  pub held : s.token ≡ some token
  pub full : is_empty token ≡ false
  pub token_sent : prop? (lit "token") call.options.body ≡ some (str token)
  pub same : s.password ≡ s.confirm
  pub password_sent : prop? (lit "password") call.options.body ≡ some (str s.password)
  pub waits : (p.0).pending ≡ true

-- The token goes out alone, for the account that is signed in.
pub record IsClaiming (s : Acceptance) (p : Acceptance × Option Call) : Type 0 where
  pub call : Call
  pub token : Text
  pub sent : p.1 ≡ some call
  pub held : s.token ≡ some token
  pub full : is_empty token ≡ false
  pub token_sent : prop? (lit "token") call.options.body ≡ some (str token)
  pub no_name : prop? (lit "name") call.options.body ≡ none
  pub no_password : prop? (lit "password") call.options.body ≡ none
  pub waits : (p.0).pending ≡ true

get_or-some :
    (o : Option Text) → is_empty (Option.get_or o []) ≡ false → o ≡ some (Option.get_or o [])
unfolding is_empty
get_or-some none h = cc
get_or-some (some t) h = refl

held_token-some : (s : Acceptance) → is_empty (held_token s) ≡ false → s.token ≡ some (held_token s)
unfolding held_token
held_token-some s h = get_or-some s.token h

get_or-empty : (o : Option Text) → is_empty (Option.get_or o []) ≡ true → (o ≡ none) ⊎ (o ≡ some [])
unfolding is_empty
get_or-empty none h = inl refl
get_or-empty (some []) h = inr refl
get_or-empty (some (c ∷ t)) h = cc

tokenless : (s : Acceptance) → is_empty (held_token s) ≡ true → IsTokenless s
unfolding held_token
tokenless s h = get_or-empty s.token h

-- The password of the two fields.
agreed : (s : Acceptance) → not (text_eq s.password s.confirm) ≡ false → s.password ≡ s.confirm
agreed s h = (text_eq_iff s.password s.confirm).0 (ground (arith, h))

differing : (s : Acceptance) → not (text_eq s.password s.confirm) ≡ true → s.password ≢ s.confirm
differing s h same =
    let equal = (text_eq_iff s.password s.confirm).1 same in ground (arith, h, equal)

module _ (s : Acceptance) where
  submit_cases : IsKept s (submit_acceptance s) ⊎ IsAccepting s (submit_acceptance s)
  unfolding submit_acceptance complain accept_call accept_body prop? field? lit text_eq
  submit_cases = elim (Bool-cases (not (text_eq s.password s.confirm))) [
    | inl e ↦ rw e (inl (record { no_call = refl; why = inl (differing s e) }))
    | inr e ↦ elim (Bool-cases (is_empty (held_token s))) [
      | inl k ↦ rw (e, k) (inl (record { no_call = refl; why = inr (tokenless s k) }))
      | inr k ↦
          rw (e, k)
            (inr (record {
              call = accept_call (accept_body (held_token s) s);
              token = held_token s;
              sent = refl;
              held = held_token-some s k;
              full = k;
              token_sent = refl;
              same = agreed s e;
              password_sent = refl;
              waits = refl;
            }))
    ]
  ]

  claim_cases : IsUnclaimed s (join_with_account s) ⊎ IsClaiming s (join_with_account s)
  unfolding join_with_account accept_call prop? field? lit text_eq
  claim_cases = elim (Bool-cases (is_empty (held_token s))) [
    | inl k ↦ rw k (inl (record { no_call = refl; why = tokenless s k }))
    | inr k ↦ rw k (
        inr (record {
          call = accept_call (object ((lit "token", some (str (held_token s))) ∷ []));
          token = held_token s;
          sent = refl;
          held = held_token-some s k;
          full = k;
          token_sent = refl;
          no_name = refl;
          no_password = refl;
          waits = refl;
        }))
  ]

  -- An invitation is accepted for a new account only with a token and with the password as it was typed
  -- both times, and for the account that is signed in with the token alone, so that no name and no
  -- password can stand in for that account's own. Nothing is sent only when the two passwords differ, in
  -- the first case, or when there is no token.
  pub submit_acceptance-IsAccepting :
      (IsKept s (submit_acceptance s) ⊎ IsAccepting s (submit_acceptance s))
      × (IsUnclaimed s (join_with_account s) ⊎ IsClaiming s (join_with_account s))
  submit_acceptance-IsAccepting = (submit_cases, claim_cases)
