-- ===== src/App/Effects/Adds.antt =====
-- The calls that a step makes.
use mathlib.Core.List.{append-nil, append_assoc}
use database_gateway.Common.{◌≡◌, refl, sym, ap, ◌∙◌, List, [], ◌∷◌, ◌++◌, Result, ok, err}
use database_gateway.Common.{All, All-append}
use database_gateway.App.Effects.{
  Event, World, Run, next, ◌>>=◌, pure_step, asking, reading, calling,
}

-- A step makes calls that satisfy `P` only, after the calls before it.
abbrev pub Adds : {A : Type 0} → (Event → Type 0) → Run A → Type 0
Adds P m = (w : World) → (es : List Event) × ((m w).1.log ≡ w.log ++ es) × All P es

pub adds_nothing :
    (P : Event → Type 0) (w : World) → (es : List Event) × (w.log ≡ w.log ++ es) × All P es
adds_nothing P w = ([], sym (append-nil w.log), tt)

module _ {A : Type 0} (P : Event → Type 0) where
  pub Adds-pure_step : (r : Result A) → Adds P (pure_step r)
  Adds-pure_step r w = adds_nothing P w

  pub Adds-asking : (f : List Event → A) → Adds P (asking f)
  Adds-asking f w = adds_nothing P w

  pub Adds-reading : (f : List Event → Result A) → Adds P (reading f)
  Adds-reading f w = adds_nothing P w

  pub Adds-calling :
      (event : Event) (answer : List Event → Result A) → P event → Adds P (calling event answer)
  Adds-calling event answer p w = (event ∷ [], refl, (p, tt))

module _ {A B : Type 0} (P : Event → Type 0) where
  next-Adds :
      (log es : List Event) (r : Result A × World) (f : A → Run B)
      → r.1.log ≡ log ++ es
      → All P es
      → ((a : A) → Adds P (f a))
      → (all : List Event) × ((next r f).1.log ≡ log ++ all) × All P all
  next-Adds log es (err e, w1) f same hs hf = (es, same, hs)
  next-Adds log es (ok a, w1) f same hs hf =
      let (more, grown, ps) = hf a w1 in
      (
        es ++ more,
        grown ∙ ap (λ (l : List Event). l ++ more) same ∙ append_assoc log es more,
        All-append P es more hs ps,
      )

  pub Adds->>= :
      (m : Run A) (f : A → Run B) → Adds P m → ((a : A) → Adds P (f a)) → Adds P (m >>= f)
  Adds->>= m f hm hf w = let (es, same, hs) = hm w in next-Adds w.log es (m w) f same hs hf

  -- A check, and what follows where it succeeds.
  pub Adds-after :
      (r : Result A) (f : A → Run B)
      → ((a : A) → r ≡ ok a → Adds P (f a))
      → Adds P (pure_step r >>= f)
  Adds-after (err e) f hf w = adds_nothing P w
  Adds-after (ok a) f hf w = hf a refl w

  -- A call, and what follows where it succeeds.
  pub Adds-calls :
      (event : Event) (answer : List Event → Result A) (f : A → Run B)
      → P event
      → ((a : A) → Adds P (f a))
      → Adds P (calling event answer >>= f)
  Adds-calls event answer f p = Adds->>= (calling event answer) f (Adds-calling P event answer p)

  -- A read, and what follows where it succeeds.
  pub Adds-reads :
      (answer : List Event → Result A) (f : A → Run B)
      → ((a : A) → Adds P (f a))
      → Adds P (reading answer >>= f)
  Adds-reads answer f = Adds->>= (reading answer) f (Adds-reading P answer)
