-- ===== src/Env/Laws.antt =====
-- What reading the connection does to the state, and that it is parsed once.
use warder.Base.{◌≡◌, refl, ◌∙◌, Option, none, some}
use warder.Connection.{Connection, Parsed, parsed, refused, parse_connection}
use warder.Env.{connection, store_parsed, use_cached}
use warder.World.Leads.{Preorder}
use warder.World.{Host, World, ok, final, ok-injective}

-- What a request may not change before it is checked.
pub record SameEffects (w w' : World) : Type 0 where
  pub cookies : w'.cookies ≡ w.cookies
  pub calls : w'.calls ≡ w.calls
  pub draws : w'.draws ≡ w.draws

pub SameEffects-refl : (w : World) → SameEffects w w
SameEffects-refl w = record { cookies = refl; calls = refl; draws = refl }

module _ (host : Host) where
  store-SameEffects :
      (w : World) (p : Parsed Connection) → SameEffects w (final (store_parsed host w p))
  unfolding store_parsed
  store-SameEffects w (parsed c) = record { cookies = refl; calls = refl; draws = refl }
  store-SameEffects w (refused r) = record { cookies = refl; calls = refl; draws = refl }

  use_cached-SameEffects :
      (w : World) (o : Option Connection) → SameEffects w (final (use_cached host w o))
  unfolding use_cached
  use_cached-SameEffects w (some c) = SameEffects-refl w
  use_cached-SameEffects w none =
      store-SameEffects w (parse_connection host.new_url host.warder_url)

  pub connection-SameEffects : (w : World) → SameEffects w (final (connection host w))
  unfolding connection
  connection-SameEffects w = use_cached-SameEffects w w.cached

  -- `cached` holds nothing, or what the connection URI parses to.
  abbrev pub IsFresh : Option Connection → Type 0
  IsFresh none = Unit
  IsFresh (some c) = parse_connection host.new_url host.warder_url ≡ parsed c

  stored :
      (w : World) (p : Parsed Connection) (c : Connection) (w' : World)
      → store_parsed host w p ≡ ok c w'
      → (p ≡ parsed c) × (w'.cached ≡ some c)
  unfolding store_parsed
  stored w (parsed d) c w' h = let (same, stays) = ok-injective h in (cc, cc)
  stored w (refused r) c w' h = cc

  used :
      (w : World) (o : Option Connection) (c : Connection) (w' : World)
      → o ≡ w.cached
      → IsFresh o
      → use_cached host w o ≡ ok c w'
      → (parse_connection host.new_url host.warder_url ≡ parsed c) × (w'.cached ≡ some c)
  unfolding use_cached
  used w (some d) c w' e fresh h = let (same, stays) = ok-injective h in (cc, cc)
  used w none c w' e fresh h = stored w (parse_connection host.new_url host.warder_url) c w' h

  -- The connection that any request works with is the one that `WARDER_URL` parses to, and it is
  -- kept: while `cached` is empty or holds that, a call that returns gives it and leaves it there.
  pub connection-eq-ok :
      (w : World) (c : Connection) (w' : World)
      → IsFresh w.cached
      → connection host w ≡ ok c w'
      → (parse_connection host.new_url host.warder_url ≡ parsed c) × (w'.cached ≡ some c)
  unfolding connection
  connection-eq-ok w c w' fresh h = used w w.cached c w' refl fresh h

pub SameEffects-trans : {u v w : World} → SameEffects u v → SameEffects v w → SameEffects u w
SameEffects-trans a b = record {
  cookies = b.cookies ∙ a.cookies;
  calls = b.calls ∙ a.calls;
  draws = b.draws ∙ a.draws;
}

pub SameEffects-preorder : Preorder SameEffects
SameEffects-preorder = record {
  reflexive = SameEffects-refl;
  transitive = λ u v w a b. SameEffects-trans a b;
}
