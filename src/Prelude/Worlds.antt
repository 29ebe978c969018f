-- ===== src/Prelude/Worlds.antt =====
-- Calls that go out to a world and may fail: `f().await?` for a call that returns the new world.
use mathlib.Core.Path.{◌≡◌, refl, ap}
use mathlib.Core.Option.{Option, none, some}
use native.Mathlib.Omega.{arith}
use aqua_auth.Prelude.Results.{Result, ok, err}

module _ {ℓ κ} {W : Type 0} {E : Type ℓ} {A : Type κ} where
  -- an answer that is missing is an error
  abbrev pub answered : E → W × Option A → W × Result E A
  answered e (w, none) = (w, err e)
  answered e (w, some a) = (w, ok a)

  pub answered-eq-ok :
      (e : E) (m : W × Option A) {w : W} {a : A} → answered e m ≡ (w, ok a) → m ≡ (w, some a)
  answered-eq-ok e (v, none) h = ground (arith, ap (λ x. x.1) h)
  answered-eq-ok e (v, some b) h = ground arith

  module _ {ι} {B : Type ι} where
    abbrev pub and_then : W × Result E A → (A → W → W × Result E B) → W × Result E B
    and_then (w, err e) next = (w, err e)
    and_then (w, ok a) next = next a w

    -- A chain that succeeds has a first call that succeeds.
    pub and_then-eq-ok :
        (m : W × Result E A) (next : A → W → W × Result E B) {w' : W} {b : B}
        → and_then m next ≡ (w', ok b)
        → (w : W) × (a : A) × (m ≡ (w, ok a)) × (next a w ≡ (w', ok b))
    and_then-eq-ok (w, err e) next h = ground (arith, ap (λ x. x.1) h)
    and_then-eq-ok (w, ok a) next h = (w, a, refl, h)

pub returned-eq-ok {ℓ κ} :
    {W : Type 0} {E : Type ℓ} {A : Type κ} {w v : W} {a b : A}
    → ◌≡◌ {A = W × Result E A} (w, ok a) (v, ok b)
    → (w ≡ v) × (a ≡ b)
returned-eq-ok h =
    let value : ◌≡◌ {A = Result _ _} (ok _) (ok _) = ap (λ x. x.1) h in
    (ap (λ x. x.0) h, ground (arith, value))
