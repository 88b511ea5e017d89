-- ===== src/Screens/SignUp/Bounds.antt =====
-- Which passwords are sent, and when the form may be left.
use warder.Base.{
  ◌+◌, ◌≤◌, ◌≡◌, refl, arith, ◌⊎◌, inl, inr, true, Bool-cases, Option, none, some, [], ◌∷◌, lit,
  text_eq, length, leb, str, field?, prop?,
}
use warder.Screens.Shared.{Call}
use warder.Screens.SignUp.{SignUpForm, long_enough, signup_call, too_short, submit_signup}

-- A password of at least twelve units goes out as it was typed.
pub record IsLongSent (s : SignUpForm) (p : SignUpForm × Option Call) : Type 0 where
  pub call : Call
  pub sent : p.1 ≡ some call
  pub long : 12 ≤ length s.password
  pub password_sent : prop? (lit "password") call.options.body ≡ some (str s.password)
  pub waits : (p.0).pending ≡ true

-- A shorter one does not, and its field says why.
pub record IsShortKept (s : SignUpForm) (p : SignUpForm × Option Call) : Type 0 where
  pub no_call : p.1 ≡ none
  pub short : length s.password + 1 ≤ 12
  pub stays : (p.0).password ≡ s.password
  pub marked : (p.0).field_errors ≡ (lit "password", too_short) ∷ []
  pub idle : (p.0).pending ≡ s.pending

-- A password is sent exactly as it was typed and only with twelve units or more; a shorter one stays in
-- the form, which marks the field and does not wait.
pub submit_signup-IsLongSent :
    (s : SignUpForm) → IsLongSent s (submit_signup s) ⊎ IsShortKept s (submit_signup s)
unfolding submit_signup long_enough signup_call prop? field? lit text_eq
submit_signup-IsLongSent s = elim (Bool-cases (leb 12 (length s.password))) [
  | inl e ↦ rw e (
      inl (record {
        call = signup_call s;
        sent = refl;
        long = ground arith;
        password_sent = refl;
        waits = refl;
      }))
  | inr e ↦ rw e (
      inr
        (record { no_call = refl; short = ground arith; stays = refl; marked = refl; idle = refl }))
]
