-- ===== src/Screens/Login/Cleared.antt =====
-- What a sign-in leaves behind, and what it takes to move on.
use warder.Base.{
  ℕ, ◌+◌, ◌≤◌, ◌<◌, ◌≡◌, ◌≢◌, sym, ◌∙◌, arith, ◌⊎◌, inl, inr, refl, true, false, Bool-cases, Option,
  none, some, [], Text, lit, Json, null, bool, num, str, arr, obj, prop?, truthy,
}
use warder.ClientApi.{ClientReply, rejected, replied}
use warder.Screens.Login.{
  Login, is_ok, message_of, move_on, take_token, accepted, answered, submitted,
}

-- The form has moved on, or it shows why not or asks for the passkey.
abbrev pub MovedOn : Login → Login → Type 0
MovedOn s t = t.signed_in ≡ s.signed_in + 1

-- A status of success, and one of failure.
abbrev pub IsGood : ℕ → Type 0
IsGood status = (200 ≤ status) × (status < 300)

abbrev pub IsBad : ℕ → Type 0
IsBad status = (status < 200) ⊎ (300 ≤ status)

pub is_ok-IsGood : (status : ℕ) → is_ok status ≡ true → IsGood status
unfolding is_ok
is_ok-IsGood status h = (ground (arith, h), ground (arith, h))

is_ok-IsBad : (status : ℕ) → is_ok status ≡ false → IsBad status
unfolding is_ok
is_ok-IsBad status h = ground (arith, h)

pub good-is_ok : (status : ℕ) → IsGood status → is_ok status ≡ true
unfolding is_ok
good-is_ok status (low, high) = ground (arith, low, high)

-- The answer asks for no second step: it does not say so, or brings no token for it.
pub data AsksNothing (payload : Option Json) : Type 0 where
  not_required : truthy (prop? (lit "mfaRequired") payload) ≡ false → AsksNothing payload
  without_token :
      ((token : Text) → prop? (lit "pendingToken") payload ≢ some (str token)) → AsksNothing payload

-- What a password leads to.
pub data IsAnswered (s : Login) : ClientReply → Login → Type 0 where
  unreachable :
      {t : Login}
      → t.signed_in ≡ s.signed_in
      → t.error ≡ some (str (lit "Could not reach the server."))
      → IsAnswered s rejected t
  refused :
      {status : ℕ} {payload : Option Json} {t : Login}
      → IsBad status
      → t.signed_in ≡ s.signed_in
      → t.error ≡ some (message_of payload)
      → IsAnswered s (replied status payload) t
  second_step :
      {status : ℕ} {payload : Option Json} {t : Login} (token : Text)
      → IsGood status
      → truthy (prop? (lit "mfaRequired") payload) ≡ true
      → prop? (lit "pendingToken") payload ≡ some (str token)
      → t.signed_in ≡ s.signed_in
      → t.pending_token ≡ some token
      → IsAnswered s (replied status payload) t
  through :
      {status : ℕ} {payload : Option Json} {t : Login}
      → IsGood status
      → AsksNothing payload
      → MovedOn s t
      → IsAnswered s (replied status payload) t

-- The password is gone and the form is free again, whatever came back.
pub record IsWiped (t : Login) : Type 0 where
  pub password : t.password ≡ []
  pub pending : t.pending ≡ false

other_value :
    (payload o : Option Json) (token : Text)
    → prop? (lit "pendingToken") payload ≡ o
    → o ≢ some (str token)
    → prop? (lit "pendingToken") payload ≢ some (str token)
other_value payload o token e differs same = differs (sym e ∙ same)

module _ (s : Login) (status : ℕ) (payload : Option Json) (good : IsGood status) where
  through_without :
      (o : Option Json)
      → prop? (lit "pendingToken") payload ≡ o
      → ((token : Text) → o ≢ some (str token))
      → {t : Login} → MovedOn s t
      → IsAnswered s (replied status payload) t
  through_without o e differs moved =
      through good (without_token λ token. other_value payload o token e (differs token)) moved

  token_taken :
      (o : Option Json)
      → truthy (prop? (lit "mfaRequired") payload) ≡ true
      → prop? (lit "pendingToken") payload ≡ o
      → IsAnswered s
          (replied status payload)
          (record (take_token o s) { password = []; pending = false })
  unfolding take_token move_on
  token_taken (some (str token)) asks e = second_step token good asks e refl refl
  token_taken (some null) asks e = through_without (some null) e (λ token h. cc) refl
  token_taken (some (bool b)) asks e = through_without (some (bool b)) e (λ token h. cc) refl
  token_taken (some (num n)) asks e = through_without (some (num n)) e (λ token h. cc) refl
  token_taken (some (arr vs)) asks e = through_without (some (arr vs)) e (λ token h. cc) refl
  token_taken (some (obj fs)) asks e = through_without (some (obj fs)) e (λ token h. cc) refl
  token_taken none asks e = through_without none e (λ token h. cc) refl

  good-IsAnswered :
      IsAnswered s
        (replied status payload)
        (record (accepted payload s) { password = []; pending = false })
  unfolding accepted move_on
  good-IsAnswered = elim (Bool-cases (truthy (prop? (lit "mfaRequired") payload))) [
    | inl e ↦ rw e (token_taken (prop? (lit "pendingToken") payload) e refl)
    | inr e ↦ rw e (through good (not_required e) refl)
  ]

submitted-IsAnswered : (reply : ClientReply) (s : Login) → IsAnswered s reply (submitted reply s)
unfolding submitted answered
submitted-IsAnswered rejected s = unreachable refl refl
submitted-IsAnswered (replied status payload) s = elim (Bool-cases (is_ok status)) [
  | inl e ↦ rw e (good-IsAnswered s status payload (is_ok-IsGood status e))
  | inr e ↦ rw e (refused (is_ok-IsBad status e) refl refl)
]

-- Whatever the server answers to a password, or if it cannot be reached: the password is gone from the
-- form and the form is free again. On an answer with a status from 200 to 299 it moves on, unless the
-- answer requires a second step and brings its token, which then begins; otherwise it stays and shows
-- the reason.
pub submitted-IsWiped :
    (reply : ClientReply) (s : Login)
    → IsWiped (submitted reply s) × IsAnswered s reply (submitted reply s)
unfolding submitted
submitted-IsWiped reply s =
    (record { password = refl; pending = refl }, submitted-IsAnswered reply s)
