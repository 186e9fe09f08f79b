-- ===== src/App/Effects/Laws.antt =====
-- Steps and the state they leave.
use database_gateway.Common.{◌≡◌, refl, String, some, lookup, Result, ok, err}
use database_gateway.App.Effects.{Pool, World, Run, next, ◌>>=◌}

next-eq-ok :
    {A B : Type 0} (r : Result A × World) (f : A → Run B) {b : B} {w2 : World}
    → next r f ≡ (ok b, w2)
    → (a : A) × (w1 : World) × (r ≡ (ok a, w1)) × (f a w1 ≡ (ok b, w2))
next-eq-ok (ok a, w1) f h = (a, w1, refl, h)
next-eq-ok (err e, w1) f h = cc

-- Inversion of a run that succeeds.
pub run-eq-ok :
    {A B : Type 0} (m : Run A) (f : A → Run B) (w : World) {b : B} {w2 : World}
    → (m >>= f) w ≡ (ok b, w2)
    → (a : A) × (w1 : World) × (m w ≡ (ok a, w1)) × (f a w1 ≡ (ok b, w2))
run-eq-ok m f w h = next-eq-ok (m w) f h

-- A step that keeps every pool.
abbrev pub KeepsPools : {A : Type 0} → Run A → Type 0
KeepsPools m =
    (w : World) (k : String) (p : Pool)
    → lookup k w.conns ≡ some p
    → lookup k (m w).1.conns ≡ some p

next-KeepsPools :
    {A B : Type 0} (r : Result A × World) (f : A → Run B) (k : String) (p : Pool)
    → ((a : A) → KeepsPools (f a))
    → lookup k r.1.conns ≡ some p
    → lookup k (next r f).1.conns ≡ some p
next-KeepsPools (ok a, w1) f k p hf q = hf a w1 k p q
next-KeepsPools (err e, w1) f k p hf q = q

pub KeepsPools->>= :
    {A B : Type 0} (m : Run A) (f : A → Run B)
    → KeepsPools m
    → ((a : A) → KeepsPools (f a))
    → KeepsPools (m >>= f)
KeepsPools->>= m f hm hf w k p h = next-KeepsPools (m w) f k p hf (hm w k p h)
