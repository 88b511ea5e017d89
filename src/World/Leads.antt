-- ===== src/World/Leads.antt =====
-- What every run of a computation does, whether it returns or throws: the state moves by a preorder,
-- and the failures are of a kind. The rules follow the text of a `do` block.
use warder.Base.{Bool, true, false, if◌then◌else◌}
use warder.World.{
  World, Failure, Outcome, ok, err, M, ◌>>=◌, continue, pure, throw, throw_if, final, Fails,
}

pub record Preorder (R : World → World → Type 0) : Type 0 where
  pub reflexive : (w : World) → R w w
  pub transitive : (u v w : World) → R u v → R v w → R u w

pub record Leads {ℓ} {A : Type ℓ} (R : World → World → Type 0) (P : Failure → Type 0) (m : M A)
    : Type 0 where
  pub moves : (w : World) → R w (final (m w))
  pub fails : (w : World) → Fails P (m w)

module _ {R : World → World → Type 0} (r : Preorder R) {P : Failure → Type 0} where
  continue-moves {ℓ κ} :
      {A : Type ℓ} {B : Type κ} (w : World) (o : Outcome A) (f : A → M B)
      → R w (final o)
      → ((a : A) → Leads R P (f a))
      → R w (final (continue o f))
  continue-moves w (ok a v) f h k = r.transitive _ _ _ h ((k a).moves v)
  continue-moves w (err e v) f h k = h

  continue-Fails {ℓ κ} :
      {A : Type ℓ} {B : Type κ} (o : Outcome A) (f : A → M B)
      → Fails P o
      → ((a : A) → Leads R P (f a))
      → Fails P (continue o f)
  continue-Fails (ok a v) f h k = (k a).fails v
  continue-Fails (err e v) f h k = h

  pub >>=-Leads {ℓ κ} :
      {A : Type ℓ} {B : Type κ} {m : M A} {f : A → M B}
      → Leads R P m
      → ((a : A) → Leads R P (f a))
      → Leads R P (m >>= f)
  >>=-Leads {m} {f} h k = record {
    moves = λ w. continue-moves w (m w) f (h.moves w) k;
    fails = λ w. continue-Fails (m w) f (h.fails w) k;
  }

  pub pure-Leads {ℓ} : {A : Type ℓ} (a : A) → Leads R P (pure a)
  pure-Leads a = record { moves = r.reflexive; fails = λ w. tt }

  pub throw-Leads {ℓ} : {A : Type ℓ} (e : Failure) → P e → Leads R P (throw {A = A} e)
  throw-Leads e p = record { moves = r.reflexive; fails = λ w. p }

  pub throw_if-Leads : (b : Bool) (e : Failure) → P e → Leads R P (throw_if b e)
  throw_if-Leads true e p = record { moves = r.reflexive; fails = λ w. p }
  throw_if-Leads false e p = record { moves = r.reflexive; fails = λ w. tt }

  -- A test between two computations.
  pub if-Leads {ℓ} :
      {A : Type ℓ} {m n : M A} (b : Bool)
      → Leads R P m
      → Leads R P n
      → Leads R P (if b then m else n)
  if-Leads true h k = h
  if-Leads false h k = k
