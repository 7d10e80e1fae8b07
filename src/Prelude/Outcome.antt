-- ===== src/Prelude/Outcome.antt =====
-- A call that returns or raises, and the dictionary keyed by numbers as a function.
use mathlib.Core.Path.{◌≡◌}
use Prim.Native.Nat.{ℕ}
use propza_amlak.Prelude.Tests.{◌==◌, if◌then◌else◌}

pub data Result (E A : Type 0) : Type 0 where
  ok : A → Result E A
  err : E → Result E A

-- `d[k] = v`, or `d.pop(k, None)` where `v` is `none`.
abbrev pub assign {ℓ} : {V : Type ℓ} → ℕ → V → (ℕ → V) → ℕ → V
assign k v d j = if j == k then v else d j

pub ok-injective : {E A : Type 0} {a b : A} → ◌≡◌ {A = Result E A} (ok a) (ok b) → a ≡ b
ok-injective h = cc
