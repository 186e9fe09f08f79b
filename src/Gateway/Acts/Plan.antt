-- ===== src/Gateway/Acts/Plan.antt =====
-- Rules for steps that do acts as planned, and of which an error leaves out the rest of the plan.
use mathlib.Core.List.{append-nil, append_assoc}
use database_gateway.Common.{
  ◌≡◌, refl, sym, ap, ◌∙◌, subst, inl, inr, List, [], ◌∷◌, ◌++◌, Error, Result, ok, err,
  Result-cases, ok_injective,
}
use database_gateway.Gateway.Acts.{Act, Start, next, ◌>>=◌, pure_step, acting}

-- After the acts `done`: what a step does is as `P` says of all the acts so far, and when it succeeds
-- it has done the acts of `plan`, and `Q` holds of its value.
pub record Follows {A : Type 0} (P : List Act → Type 0) (done plan : List Act) (Q : A → Type 0)
    (m : Start A) (log : List Act) : Type 0 where
  pub acts : List Act
  pub log_after : (m log).1 ≡ log ++ acts
  pub is_so : P (done ++ acts)
  pub succeeds : (a : A) → (m log).0 ≡ ok a → (acts ≡ plan) × Q a

next-err :
    {A B : Type 0} (p : Result A × List Act) (f : A → Start B) (e : Error)
    → p.0 ≡ err e
    → next p f ≡ (err e, p.1)
next-err (ok a, log) f e h = cc h
next-err (err d, log) f e h = cc h

next-ok :
    {A B : Type 0} (p : Result A × List Act) (f : A → Start B) (a : A)
    → p.0 ≡ ok a
    → next p f ≡ f a p.1
next-ok (ok b, log) f a h = ap (λ x. f x log) (ok_injective h)
next-ok (err d, log) f a h = cc h

module _ (P : List Act → Type 0) (done : List Act) where
  pub pure_step-Follows :
      {A : Type 0} (Q : A → Type 0) (r : Result A) (log : List Act)
      → P done
      → ((a : A) → r ≡ ok a → Q a)
      → Follows P done [] Q (pure_step r) log
  pure_step-Follows Q r log p q = record {
    acts = [];
    log_after = sym (append-nil log);
    is_so = subst P (sym (append-nil done)) p;
    succeeds = λ a e. (refl, q a e);
  }

  pub acting-Follows :
      {A : Type 0} (act : Act) (answer : List Act → Result A) (log : List Act)
      → P (done ++ (act ∷ []))
      → Follows P done (act ∷ []) (λ (_ : A). Unit {0}) (acting act answer) log
  acting-Follows act answer log p = record {
    acts = act ∷ [];
    log_after = refl;
    is_so = p;
    succeeds = λ a e. (refl, tt);
  }

  pub >>=-Follows :
      {A B : Type 0} (plan later : List Act) (Q : A → Type 0) (R : B → Type 0) (m : Start A)
      (f : A → Start B) (log : List Act)
      → Follows P done plan Q m log
      → ((a : A) (log' : List Act) → Q a → Follows P (done ++ plan) later R (f a) log')
      → Follows P done (plan ++ later) R (m >>= f) log
  >>=-Follows {B = B} plan later Q R m f log first then_ = elim (Result-cases (m log).0) [
    | inr (e, failed) ↦
        let stops = next-err (m log) f e failed in
        record {
          acts = first.acts;
          log_after = ap (λ (x : Result B × List Act). x.1) stops ∙ first.log_after;
          is_so = first.is_so;
          succeeds = λ b h.
              let bad : ⊥ = cc (h, ap (λ (x : Result B × List Act). x.0) stops) in elim bad [ ];
        }
    | inl (a, gives) ↦
        let goes_on = next-ok (m log) f a gives in
        let (as_planned, q) = first.succeeds a gives in
        let rest = then_ a (m log).1 q in
        record {
          acts = first.acts ++ rest.acts;
          log_after =
              ap (λ (x : Result B × List Act). x.1) goes_on
              ∙ (rest.log_after
                  ∙ (ap (λ l. l ++ rest.acts) first.log_after
                      ∙ append_assoc log first.acts rest.acts));
          is_so =
              subst P
                (append_assoc done plan rest.acts
                  ∙ ap (λ l. done ++ (l ++ rest.acts)) (sym as_planned))
                rest.is_so;
          succeeds = λ b h.
              let (later_planned, r) =
                rest.succeeds b (ap (λ (x : Result B × List Act). x.0) (sym goes_on) ∙ h) in
              (rw (as_planned, later_planned) refl, r);
        }
  ]
