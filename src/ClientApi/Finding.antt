-- ===== src/ClientApi/Finding.antt =====
-- What the browser finds in `document.cookie`.
use warder.Base.{
  ℕ, ◌≡◌, refl, sym, ◌∙◌, ap, arith, ◌⊎◌, inl, inr, false, Bool-cases, none, some, List, [], ◌∷◌,
  ◌++◌, append_assoc, Text, lit, text_eq, strip_prefix, strip_prefix-append, ◌==◌, All, All-append,
}
use warder.ClientApi.{until_semicolon, later_token, cookie_token}

-- `document.cookie`: the cookies that scripts may read, as `name=value`, with `; ` between them.
abbrev pub more_cookies : List (Text × Text) → Text
more_cookies [] = []
more_cookies ((name, value) ∷ cookies) =
    lit "; " ++ (name ++ b'=' ∷ (value ++ more_cookies cookies))

abbrev pub cookie_text : List (Text × Text) → Text
cookie_text [] = []
cookie_text ((name, value) ∷ cookies) = name ++ b'=' ∷ (value ++ more_cookies cookies)

abbrev pub IsNot : ℕ → ℕ → Type 0
IsNot d c = (c == d) ≡ false

-- A cookie of another name, of the units that a name and a value may have.
pub record IsOther (cookie : Text × Text) : Type 0 where
  pub name_ends : All (IsNot b'=') cookie.0
  pub name_plain : All (IsNot b';') cookie.0
  pub value_plain : All (IsNot b';') cookie.1
  pub other : text_eq cookie.0 (lit "warder_csrf") ≡ false

until_semicolon-append :
    (token rest : Text)
    → All (IsNot b';') token
    → (rest ≡ []) ⊎ ((s : Text) × (rest ≡ b';' ∷ s))
    → until_semicolon (token ++ rest) ≡ token
unfolding until_semicolon
until_semicolon-append [] rest plain (inl e) = rw e refl
until_semicolon-append [] rest plain (inr (s, e)) = rw e refl
until_semicolon-append (c ∷ token) rest (here, plain) ends =
    rw here (ap (λ s. c ∷ s) (until_semicolon-append token rest plain ends))

more-ends :
    (cookies : List (Text × Text))
    → (more_cookies cookies ≡ []) ⊎ ((s : Text) × (more_cookies cookies ≡ b';' ∷ s))
unfolding lit
more-ends [] = inl refl
more-ends ((name, value) ∷ cookies) = inr (_, refl)

later_token-append :
    (s rest : Text) → All (IsNot b';') s → later_token (s ++ rest) ≡ later_token rest
unfolding later_token lit strip_prefix
later_token-append [] rest plain = refl
later_token-append (c ∷ s) rest (here, plain) =
    rw (later_token, here) (later_token-append s rest plain)

other-prefix :
    (n m v : Text)
    → All (IsNot b'=') n
    → All (IsNot b'=') m
    → text_eq n m ≡ false
    → strip_prefix (m ++ b'=' ∷ []) (n ++ b'=' ∷ v) ≡ none
unfolding strip_prefix text_eq
other-prefix [] [] v hn hm h = cc
other-prefix [] (y ∷ m) v hn (hy, hm) h =
    let apart : (b'=' == y) ≡ false = ground arith in rw (strip_prefix, apart) refl
other-prefix (x ∷ n) [] v (hx, hn) hm h = rw (strip_prefix, hx) refl
other-prefix (x ∷ n) (y ∷ m) v (hx, hn) (hy, hm) h = elim (Bool-cases (x == y)) [
  | inl e ↦ rw (strip_prefix, e) (other-prefix n m v hn hm (ground arith))
  | inr e ↦ rw (strip_prefix, e) refl
]

csrf_name : All (IsNot b'=') (lit "warder_csrf")
unfolding lit
csrf_name =
    (refl, (refl, (refl, (refl, (refl, (refl, (refl, (refl, (refl, (refl, (refl, tt)))))))))))

-- The name and the sign behind it, as the pattern has them.
name_sign : lit "warder_csrf=" ≡ lit "warder_csrf" ++ b'=' ∷ []
unfolding lit
name_sign = refl

other_text :
    (name value rest : Text)
    → IsOther (name, value)
    → strip_prefix (lit "warder_csrf=") (name ++ b'=' ∷ (value ++ rest)) ≡ none
other_text name value rest h =
    rw name_sign
      (other-prefix name (lit "warder_csrf") (value ++ rest) h.name_ends csrf_name h.other)

other_plain : (name value : Text) → IsOther (name, value) → All (IsNot b';') (name ++ b'=' ∷ value)
other_plain name value h =
    All-append (IsNot b';') name (b'=' ∷ value) h.name_plain (refl, h.value_plain)

apart : (name value rest : Text) → (name ++ b'=' ∷ value) ++ rest ≡ name ++ b'=' ∷ (value ++ rest)
apart name value rest = append_assoc name (b'=' ∷ value) rest

own_text :
    (rest : Text) → strip_prefix (lit "warder_csrf=") (lit "warder_csrf" ++ b'=' ∷ rest) ≡ some rest
unfolding lit strip_prefix
own_text rest = strip_prefix-append (lit "warder_csrf=") rest

-- What the pattern does at a separator, with the name behind it or without.
later_own :
    (s rest : Text)
    → strip_prefix (lit "warder_csrf=") s ≡ some rest
    → later_token (lit "; " ++ s) ≡ some (until_semicolon rest)
unfolding later_token lit strip_prefix
later_own s rest h = rw (later_token, h) refl

later_other :
    (s : Text)
    → strip_prefix (lit "warder_csrf=") s ≡ none
    → later_token (lit "; " ++ s) ≡ later_token s
unfolding later_token lit strip_prefix
later_other s h = rw (later_token, h) refl

cookie_own :
    (s rest : Text)
    → strip_prefix (lit "warder_csrf=") s ≡ some rest
    → cookie_token s ≡ some (until_semicolon rest)
unfolding cookie_token strip_prefix lit
cookie_own s rest h = rw h refl

cookie_other :
    (s : Text) → strip_prefix (lit "warder_csrf=") s ≡ none → cookie_token s ≡ later_token s
unfolding cookie_token strip_prefix lit
cookie_other s h = rw h refl

module _ (token : Text) (after : List (Text × Text)) (plain : All (IsNot b';') token) where
  found : until_semicolon (token ++ more_cookies after) ≡ token
  found = until_semicolon-append token (more_cookies after) plain (more-ends after)

  behind_other :
      (name value rest : Text)
      → IsOther (name, value)
      → later_token rest ≡ some token
      → later_token (name ++ b'=' ∷ (value ++ rest)) ≡ some token
  behind_other name value rest h e =
      sym (ap later_token (apart name value rest))
      ∙ (later_token-append (name ++ b'=' ∷ value) rest (other_plain name value h) ∙ e)

  later_token-found :
      (before : List (Text × Text))
      → All IsOther before
      → later_token (more_cookies (before ++ (lit "warder_csrf", token) ∷ after)) ≡ some token
  later_token-found [] h = later_own _ (token ++ more_cookies after) (own_text _) ∙ ap some found
  later_token-found ((name, value) ∷ before) (p, h) =
      let rest = more_cookies (before ++ (lit "warder_csrf", token) ∷ after) in
      later_other _ (other_text name value rest p)
      ∙ behind_other name value rest p (later_token-found before h)

  pub cookie_token-found :
      (before : List (Text × Text))
      → All IsOther before
      → cookie_token (cookie_text (before ++ (lit "warder_csrf", token) ∷ after)) ≡ some token
  cookie_token-found [] h = cookie_own _ (token ++ more_cookies after) (own_text _) ∙ ap some found
  cookie_token-found ((name, value) ∷ before) (p, h) =
      let rest = more_cookies (before ++ (lit "warder_csrf", token) ∷ after) in
      cookie_other _ (other_text name value rest p)
      ∙ behind_other name value rest p (later_token-found before h)
