-- ===== src/Screens/KeyPicker/Among.antt =====
-- Keys that are among others, through the helpers of secret-key-picker.tsx.
use warder.Base.{
  ◌≡◌, inl, inr, refl, sym, arith, true, Bool-cases, Option, some, List, [], ◌∷◌, ◌++◌, Text,
  text_eq, text_eq_iff, text_eq_refl, one_of, filter, length, get_elem?, All, Holds, Holds-self,
  Holds-cons, Holds-filtered,
}
use warder.Screens.KeyPicker.{Picker, matches, drop_last, first_unselected}

abbrev pub Among : List Text → Text → Type 0
Among keys key = one_of keys key ≡ true

pub one_of_self : (keys : List Text) (key : Text) → Holds keys key → Among keys key
unfolding one_of
one_of_self keys key ([], after, e) = rw e (rw (text_eq_refl key) refl)
one_of_self [] key (b ∷ before, after, e) = cc
one_of_self (k ∷ keys) key (b ∷ before, after, e) =
    let later = one_of_self keys key (before, after, cc) in ground (arith, later)

one_of-Holds : (keys : List Text) (key : Text) → Among keys key → Holds keys key
unfolding one_of
one_of-Holds [] key h = cc
one_of-Holds (k ∷ keys) key h = elim (Bool-cases (text_eq k key)) [
  | inl e ↦ Holds-self k keys key (sym ((text_eq_iff k key).0 e))
  | inr e ↦ Holds-cons k keys key (one_of-Holds keys key (rw e at h))
]

pub filtered-Among : (keys chosen : List Text) → All (Among keys) (filter (one_of keys) chosen)
filtered-Among keys [] = tt
filtered-Among keys (k ∷ chosen) = elim (Bool-cases (one_of keys k)) [
  | inl e ↦ rw e (e, filtered-Among keys chosen)
  | inr e ↦ rw e (filtered-Among keys chosen)
]

pub matches-Among : (p : Picker) (key : Text) → Among (matches p) key → Among p.keys key
unfolding matches
matches-Among p key h =
    one_of_self p.keys key (Holds-filtered _ p.keys key (one_of-Holds _ key h)).0

pub drop_last-All : (P : Text → Type 0) (xs : List Text) → All P xs → All P (drop_last xs)
unfolding drop_last
drop_last-All P [] h = tt
drop_last-All P (x ∷ []) h = tt
drop_last-All P (x ∷ y ∷ xs) (p, h) = (p, drop_last-All P (y ∷ xs) h)

pub first-Among :
    (selected keys : List Text) (key : Text)
    → first_unselected selected keys ≡ some key
    → Holds keys key
unfolding first_unselected
first-Among selected [] key e = cc
first-Among selected (k ∷ keys) key e = elim (Bool-cases (one_of selected k)) [
  | inl o ↦ Holds-cons k keys key (first-Among selected keys key (rw o at e))
  | inr o ↦ Holds-self k keys key (same (rw o at e))
]
  where
    same : {a b : Text} → ◌≡◌ {A = Option Text} (some a) (some b) → b ≡ a
    same e = cc

pub get_elem-last :
    (ids : List Text) (id : Text) → get_elem? (ids ++ id ∷ []) (length ids) ≡ some id
get_elem-last [] id = refl
get_elem-last (i ∷ ids) id = get_elem-last ids id
