-- ===== src/Routes/Secrets/Current.antt =====
-- Which version of a secret gets the new expiry.
use warder.Base.{
  Holds, Holds-cons, Holds-self, Holds-filtered, ◌≤◌, ◌≡◌, refl, sym, ap, arith, ◌⊎◌, inl, inr,
  true, false, Bool-cases, Option, none, some, List, [], ◌∷◌, Text, lit, leb, filter, All, Json,
  null, bool, num, str, arr, obj, items, prop?,
}
use warder.Routes.Secrets.{
  version_number, is_active, active_versions, insert_version, sort_versions, version_list,
  first_or_fail, current_version,
}
use warder.Routes.Shared.{read_prop}
use warder.World.{World, ok, ok-injective, continue-eq-ok}

AllBelow : List Json → Json → Type 0
AllBelow xs v = All (λ u. version_number u ≤ version_number v) xs

below_trans :
    (xs : List Json) (u v : Json)
    → version_number u ≤ version_number v
    → AllBelow xs u
    → AllBelow xs v
unfolding AllBelow
below_trans [] u v h _ = tt
below_trans (x ∷ xs) u v h (p, q) = (omega (arith, h, p), below_trans xs u v h q)

insert-ne-nil : (x : Json) (us : List Json) → insert_version x us ≡ [] → ⊥
unfolding insert_version
insert-ne-nil x [] h = cc
insert-ne-nil x (u ∷ us) h = elim (Bool-cases (leb (version_number u) (version_number x))) [
  | inl e ↦ absurd (cons_ne (rw e at h))
  | inr e ↦ absurd (cons_ne (rw e at h))
]
  where
    cons_ne : {a : Json} {as' : List Json} → a ∷ as' ≡ [] → ⊥
    cons_ne e = cc

-- The first of the sorted list is the one put in, or the first that was there and stays ahead.
insert-head :
    (x : Json) (us : List Json) (v : Json) (rest : List Json)
    → insert_version x us ≡ v ∷ rest
    → ((v ≡ x)
        × ((u : Json) (us' : List Json) → us ≡ u ∷ us' → version_number u ≤ version_number v))
      ⊎ ((us' : List Json) × (us ≡ v ∷ us') × (version_number x ≤ version_number v))
unfolding insert_version
insert-head x [] v rest h = inl (cc, λ u us' e. cc)
insert-head x (u ∷ us) v rest h = elim (Bool-cases (leb (version_number u) (version_number x))) [
  | inl e ↦ inl (
    head_same (rw e at h),
    λ u' us' same. rw (head_same (rw e at h), head_same same) (ground (arith, e)),
  )
  | inr e ↦ inr (
    us,
    ap (λ (a : Json). a ∷ us) (sym (head_same (rw e at h))),
    rw (head_same (rw e at h)) (ground (arith, e)),
  )
]
  where
    head_same : {a b : Json} {as' bs : List Json} → ◌≡◌ {A = List Json} (a ∷ as') (b ∷ bs) → b ≡ a
    head_same e = cc

sort-ne-nil : (x : Json) (xs : List Json) → sort_versions (x ∷ xs) ≡ [] → ⊥
unfolding sort_versions
sort-ne-nil x xs h = insert-ne-nil x (sort_versions xs) h

AllBelow-nil : (xs : List Json) (v : Json) → sort_versions xs ≡ [] → AllBelow xs v
unfolding AllBelow
AllBelow-nil [] v h = tt
AllBelow-nil (x ∷ xs) v h = absurd (sort-ne-nil x xs h)

later_below :
    (xs : List Json) (v : Json) (us : List Json)
    → sort_versions xs ≡ us
    → ((u : Json) (us' : List Json) → us ≡ u ∷ us' → version_number u ≤ version_number v)
    → ((u : Json) (us' : List Json) → sort_versions xs ≡ u ∷ us' → AllBelow xs u)
    → AllBelow xs v
later_below xs v [] e ahead sorted = AllBelow-nil xs v e
later_below xs v (u ∷ us) e ahead sorted = below_trans xs u v (ahead u us refl) (sorted u us e)

sort_head :
    (xs : List Json) (v : Json) (rest : List Json)
    → sort_versions xs ≡ v ∷ rest
    → AllBelow xs v × Holds xs v
unfolding sort_versions AllBelow
sort_head [] v rest h = cc
sort_head (x ∷ xs) v rest h = elim (insert-head x (sort_versions xs) v rest h) [
  | inl (same, ahead) ↦ (
    (
      rw same (omega arith),
      later_below xs v (sort_versions xs) refl ahead λ u us e. (sort_head xs u us e).0,
    ),
    Holds-self x xs v same,
  )
  | inr (us, e, le) ↦
      let (below, held) = sort_head xs v us e in ((le, below), Holds-cons x xs v held)
]

-- The loop of `filter`.
active_versions-eq-ok :
    (vs as' : List Json) (w w' : World)
    → active_versions vs w ≡ ok as' w'
    → as' ≡ filter is_active vs
unfolding active_versions
active_versions-eq-ok [] as' w w' h = sym (ok-injective h).0
active_versions-eq-ok (v ∷ vs) as' w w' h =
    let (status, w1, e1, h1) = continue-eq-ok (read_prop (lit "status") (some v) w) _ h in
    let (rest, w2, e2, h2) = continue-eq-ok (active_versions vs w1) _ h1 in
    rw (← active_versions-eq-ok vs rest w1 w2 e2) (sym (ok-injective h2).0)

-- No active version of the list has a higher number.
abbrev pub IsNewest : List Json → Json → Type 0
IsNewest vs v = All (λ u. is_active u ≡ true → version_number u ≤ version_number v) vs

filter-IsNewest : (vs : List Json) (v : Json) → AllBelow (filter is_active vs) v → IsNewest vs v
unfolding AllBelow
filter-IsNewest [] v h = tt
filter-IsNewest (u ∷ vs) v h = elim (Bool-cases (is_active u)) [
  | inl e ↦ let (le, later) = rw e at h in ((λ _. le), filter-IsNewest vs v later)
  | inr e ↦ ((λ a. absurd (clash u e a)), filter-IsNewest vs v (rw e at h))
]
  where
    clash : (u : Json) → is_active u ≡ false → is_active u ≡ true → ⊥
    clash u e a = cc

-- The versions in an answer's field.
abbrev pub listed : Option Json → List Json
listed (some (arr vs)) = items vs
listed (some null) = []
listed (some (bool b)) = []
listed (some (num n)) = []
listed (some (str s)) = []
listed (some (obj fs)) = []
listed none = []

version_list-eq-ok :
    (o : Option Json) (vs : List Json) (w w' : World) → version_list o w ≡ ok vs w' → vs ≡ listed o
unfolding version_list
version_list-eq-ok none vs w w' h = sym (ok-injective h).0
version_list-eq-ok (some null) vs w w' h = sym (ok-injective h).0
version_list-eq-ok (some (arr us)) vs w w' h = sym (ok-injective h).0
version_list-eq-ok (some (bool b)) vs w w' h = cc
version_list-eq-ok (some (num n)) vs w w' h = cc
version_list-eq-ok (some (str s)) vs w w' h = cc
version_list-eq-ok (some (obj fs)) vs w w' h = cc

read_prop-eq-ok :
    (k : Text) (v o : Option Json) (w w' : World) → read_prop k v w ≡ ok o w' → o ≡ prop? k v
unfolding read_prop prop?
read_prop-eq-ok k none o w w' h = cc
read_prop-eq-ok k (some null) o w w' h = cc
read_prop-eq-ok k (some (bool b)) o w w' h = sym (ok-injective h).0
read_prop-eq-ok k (some (num n)) o w w' h = sym (ok-injective h).0
read_prop-eq-ok k (some (str s)) o w w' h = sym (ok-injective h).0
read_prop-eq-ok k (some (arr vs)) o w w' h = sym (ok-injective h).0
read_prop-eq-ok k (some (obj fs)) o w w' h = sym (ok-injective h).0

first_or_fail-eq-ok :
    (vs : List Json) (v : Json) (w w' : World)
    → first_or_fail vs w ≡ ok v w'
    → (rest : List Json) × (vs ≡ v ∷ rest)
unfolding first_or_fail
first_or_fail-eq-ok [] v w w' h = cc
first_or_fail-eq-ok (u ∷ vs) v w w' h = (vs, ap (λ x. x ∷ vs) (ok-injective h).0)

-- What is said of the version that is chosen from a list.
pub record IsCurrent (vs : List Json) (v : Json) : Type 0 where
  pub held : Holds vs v
  pub active : is_active v ≡ true
  pub newest : IsNewest vs v

chosen :
    (vs : List Json) (v : Json) (rest : List Json)
    → sort_versions (filter is_active vs) ≡ v ∷ rest
    → IsCurrent vs v
chosen vs v rest e =
    let (below, held) = sort_head (filter is_active vs) v rest e in
    let (member, active) = Holds-filtered is_active vs v held in
    record { held = member; active = active; newest = filter-IsNewest vs v below }

-- The version whose expiry the route changes is one of those that the core API lists: it is active
-- and not revoked, and no other such version has a higher number, in whatever order they are listed.
pub current_version-IsCurrent :
    (result : Option Json) (v : Json) (w w' : World)
    → current_version result w ≡ ok v w'
    → IsCurrent (listed (prop? (lit "versions") result)) v
unfolding current_version
current_version-IsCurrent result v w w' h =
    let (o, w1, e1, h1) = continue-eq-ok (read_prop (lit "versions") result w) _ h in
    let (vs, w2, e2, h2) = continue-eq-ok (version_list o w1) _ h1 in
    let (as', w3, e3, h3) = continue-eq-ok (active_versions vs w2) _ h2 in
    let (rest, e4) = first_or_fail-eq-ok (sort_versions as') v w3 w' h3 in
    let here = read_prop-eq-ok (lit "versions") result o w w1 e1 in
    let all' = version_list-eq-ok o vs w1 w2 e2 in
    let kept = active_versions-eq-ok vs as' w2 w3 e3 in
    rw (← here, ← all') (chosen vs v rest (rw kept at e4))
