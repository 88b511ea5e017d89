-- ===== src/Screens/Login/Confirmed.antt =====
-- When the second step of the sign-in form moves on.
use warder.Base.{
  ℕ, ◌≡◌, ◌↔◌, sym, ◌∙◌, ap, arith, inl, inr, refl, Bool-cases, Option, some, [], ◌∷◌, Text, lit,
  Json, str, object,
}
use warder.ClientApi.{ClientReply, rejected, replied}
use warder.Screens.Login.{
  Login, Thrown, Result, returned, thrown, ◌>>=◌, is_ok, posted, move_on, confirm, settled,
}
use warder.Screens.Login.Cleared.{MovedOn, IsGood, is_ok-IsGood, good-is_ok}

-- The request to `path` is answered with success, and with this payload.
abbrev pub Accepts : (Text → Json → ClientReply) → Text → Json → Option Json → Type 0
Accepts post path body payload =
    (status : ℕ) × (post path body ≡ replied status payload) × IsGood status

posted_sound :
    (offline : Json) (reply : ClientReply) (payload : Option Json)
    → posted offline reply ≡ returned payload
    → (status : ℕ) × (reply ≡ replied status payload) × IsGood status
unfolding posted
posted_sound offline rejected payload h = cc
posted_sound offline (replied status given) payload h = elim (Bool-cases (is_ok status)) [
  | inl e ↦
      let same : given ≡ payload = same_payload (rw e at h) in
      (status, ap (replied status) same, is_ok-IsGood status e)
  | inr e ↦ absurd (never (rw e at h))
]
  where
    same_payload :
        {a b : Option Json} → ◌≡◌ {A = Result (Option Json)} (returned a) (returned b) → a ≡ b
    same_payload e = cc

    never :
        {x : Thrown} {b : Option Json} → ◌≡◌ {A = Result (Option Json)} (thrown x) (returned b) → ⊥
    never e = cc

posted_complete :
    (offline : Json) (reply : ClientReply) (status : ℕ) (payload : Option Json)
    → reply ≡ replied status payload
    → IsGood status
    → posted offline reply ≡ returned payload
unfolding posted
posted_complete offline reply status payload e good = rw (e, posted, good-is_ok status good) refl

-- A ceremony that ended well: the server began it for this token with some options, the prompt gave a
-- credential for them, and the server answered that credential and the token with success.
pub record IsConfirmed (post : Text → Json → ClientReply) (prompt : Option Json → Result Json)
    (token : Text) : Type 0 where
  pub options : Option Json
  pub credential : Json
  pub payload : Option Json
  pub begun :
      Accepts post
        (lit "/api/auth/passkeys/assert/begin")
        (object ((lit "pendingToken", some (str token)) ∷ []))
        options
  pub prompted : prompt options ≡ returned credential
  pub finished :
      Accepts post
        (lit "/api/auth/passkeys/assert/finish")
        (object ((lit "pendingToken", some (str token)) ∷ (lit "credential", some credential) ∷ []))
        payload

bind-returned :
    {A B : Type 0} (r : Result A) (f : A → Result B) {b : B}
    → r >>= f ≡ returned b
    → (a : A) × (r ≡ returned a) × (f a ≡ returned b)
bind-returned (returned a) f h = (a, refl, h)
bind-returned (thrown e) f h = cc

bind-through :
    {A B : Type 0} (r : Result A) (f : A → Result B) {a : A} {b : B}
    → r ≡ returned a
    → f a ≡ returned b
    → r >>= f ≡ returned b
bind-through (returned x) f {a} e h = let same : x ≡ a = cc in rw same h
bind-through (thrown x) f e h = cc

module _ (offline : Json) (post : Text → Json → ClientReply) (prompt : Option Json → Result Json)
    (token : Text) where
  confirmed :
      (payload : Option Json)
      → confirm offline post prompt token ≡ returned payload
      → IsConfirmed post prompt token
  unfolding confirm
  confirmed payload h =
      let (options, begun, h') = bind-returned _ _ h in
      let (credential, prompted, finished) = bind-returned (prompt options) _ h' in
      record {
        options = options;
        credential = credential;
        payload = payload;
        begun = posted_sound offline _ options begun;
        prompted = prompted;
        finished = posted_sound offline _ payload finished;
      }

  returns :
      (c : IsConfirmed post prompt token) → confirm offline post prompt token ≡ returned c.payload
  unfolding confirm
  returns c =
      let (first, began, good) = c.begun in
      let (last, ended, fine) = c.finished in
      bind-through _ _ (posted_complete offline _ first c.options began good) (
        bind-through (prompt c.options) _ c.prompted
          (posted_complete offline _ last c.payload ended fine))

  moved_iff :
      (r : Result (Option Json)) (s : Login)
      → confirm offline post prompt token ≡ r
      → MovedOn s (settled r s) ↔ IsConfirmed post prompt token
  unfolding settled move_on
  moved_iff (returned payload) s e = (λ moved. confirmed payload e, λ c. refl)
  moved_iff (thrown x) s e =
      (λ moved. absurd (omega (arith, moved)), λ c. absurd (never (sym e ∙ returns c)))
    where
      never :
          {x : Thrown} {b : Option Json}
          → ◌≡◌ {A = Result (Option Json)} (thrown x) (returned b)
          → ⊥
      never e = cc

  -- The second step moves on exactly when the server begins it for this token with a status of success,
  -- the prompt gives a credential for just those options, and the server answers that credential with
  -- the token with a status of success.
  pub confirm-IsConfirmed :
      (s : Login)
      → MovedOn s (settled (confirm offline post prompt token) s) ↔ IsConfirmed post prompt token
  confirm-IsConfirmed s = moved_iff (confirm offline post prompt token) s refl
