-- ===== src/Base/Runs.antt =====
-- A sequence of events on a state.
use mathlib.Core.List.{List, [], ◌∷◌}

module _ {ℓ κ} {E : Type ℓ} {S : Type κ} (handle : E → S → S) where
  -- The state after the events, the first of them first.
  unfoldable pub runs : List E → S → S
  runs [] s = s
  runs (e ∷ events) s = runs events (handle e s)

  -- What every event keeps, all of them keep.
  pub runs_keep {μ} :
      (P : S → Type μ)
      → ((e : E) (s : S) → P s → P (handle e s))
      → (events : List E) (s : S) → P s
      → P (runs events s)
  unfolding runs
  runs_keep P keeps [] s h = h
  runs_keep P keeps (e ∷ events) s h = runs_keep P keeps events (handle e s) (keeps e s h)

  -- Every event is as it may be in the state it meets.
  abbrev pub AllFit {μ} : (E → S → Type μ) → List E → S → Type μ
  AllFit Fits [] s = Unit
  AllFit Fits (e ∷ events) s = Fits e s × AllFit Fits events (handle e s)

  -- What every such event keeps, a sequence of them keeps.
  pub runs_keep_fit {μ ν} :
      (Fits : E → S → Type ν) (P : S → Type μ)
      → ((e : E) (s : S) → Fits e s → P s → P (handle e s))
      → (events : List E) (s : S) → AllFit Fits events s
      → P s
      → P (runs events s)
  unfolding runs
  runs_keep_fit Fits P keeps [] s fit h = h
  runs_keep_fit Fits P keeps (e ∷ events) s (here, fit) h =
      runs_keep_fit Fits P keeps events (handle e s) fit (keeps e s here h)
