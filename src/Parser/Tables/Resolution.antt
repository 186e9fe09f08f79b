-- ===== src/Parser/Tables/Resolution.antt =====
-- How far `Tables.Get` follows the names, on all tables that the parser builds.
use database_gateway.Common.{ℕ, zero, suc, ◌+◌, ◌≡◌, refl, ◌≢◌, inl, inr, String, ◌<>◌, true}
use database_gateway.Common.{false, not, ◌&&◌, none, some, List, [], ◌∷◌, ◌++◌, arith}
use database_gateway.Common.{Map, lookup, lookup-insert, contains, ◌==◌, eq_iff, eq_refl}
use database_gateway.Common.{ok, Option-cases, Bool-cases, if◌then◌else◌}
use database_gateway.Common.{◌∙◌, ap, sym}
use database_gateway.Common.Text.{is_empty}
use database_gateway.Parser.Tables.{Tables, new_tables, put, map_names, full_name, missing}
use database_gateway.Parser.Tables.{resolved, resolve, finalize}

-- Every name that is mapped resolves within the fuel, to a name that is mapped to itself.
abbrev pub Settled : ℕ → Map String → String → Type 0
Settled n m k = (r : String) × (resolve n m k ≡ resolved r) × (lookup r m ≡ some r)

abbrev pub AllSettled : ℕ → Map String → Type 0
AllSettled n m = (k : String) → lookup k m ≢ none → Settled n m k

-- `m'` is `m` with the names of `ks` mapped to `f`, and `f` to itself.
pub record IsRemap (ks : List String) (f : String) (m m' : Map String) : Type 0 where
  pub looked : (j : String) → lookup j m' ≡ (if contains j ks then some f else lookup j m)
  pub fixed : lookup f m' ≡ some f

module _ (m : Map String) (k : String) (n : ℕ) where
  pub resolve_hit : lookup k m ≡ some k → resolve (suc n) m k ≡ resolved k
  unfolding resolve
  resolve_hit h = rw (h, resolve) (rw eq_refl)

  pub resolve_next :
      (v : String) → lookup k m ≡ some v → (v == k) ≡ false → resolve (suc n) m k ≡ resolve n m v
  unfolding resolve
  resolve_next v h other = rw (h, resolve) (rw other)

  pub resolve_unmapped : lookup k m ≡ none → resolve (suc n) m k ≡ missing
  unfolding resolve
  resolve_unmapped h = rw (h, resolve)

pub resolve-zero : (m : Map String) (k r : String) → resolve zero m k ≢ resolved r
unfolding resolve
resolve-zero m k r h = cc

-- A name that is mapped to a settled one is settled, with one more round.
Settled-next :
    (n : ℕ) (m : Map String) (k v : String)
    → lookup k m ≡ some v
    → Settled n m v
    → Settled (suc n) m k
Settled-next n m k v h (r, s, x) = elim (Bool-cases (v == k)) [
  | inl same ↦
      let q : v ≡ k = (eq_iff v k).0 same in
      let loop : lookup k m ≡ some k = h ∙ ap some q in (k, resolve_hit m k n loop, loop)
  | inr other ↦ (r, resolve_next m k n v h other ∙ s, x)
]

module _ (ks : List String) (f : String) (m m' : Map String) (e : IsRemap ks f m m') where
  Settled-listed : (n : ℕ) (k : String) → contains k ks ≡ true → Settled (suc (suc n)) m' k
  Settled-listed n k listed =
      Settled-next (suc n) m' k f (e.looked k ∙ rw listed) (f, resolve_hit m' f n e.fixed, e.fixed)

  -- What resolved before resolves after one more round.
  chase : (n : ℕ) (k r : String) → resolve n m k ≡ resolved r → Settled (suc n) m' k
  chase zero k r h = absurd (resolve-zero m k r h)
  chase (suc n) k r h = elim (Bool-cases (contains k ks)) [
    | inl listed ↦ Settled-listed n k listed
    | inr free ↦ elim (Option-cases (lookup k m)) [
      | inl unmapped ↦ cc (resolve_unmapped m k n unmapped)
      | inr (v, found) ↦
          let found' : lookup k m' ≡ some v = e.looked k ∙ rw free found in
          elim (Bool-cases (v == k)) [
            | inl same ↦
                let loop : lookup k m' ≡ some k = found' ∙ ap some ((eq_iff v k).0 same) in
                (k, resolve_hit m' k (suc n) loop, loop)
            | inr other ↦
                Settled-next (suc n) m' k v found'
                  (chase n v r (sym (resolve_next m k n v found other) ∙ h))
          ]
    ]
  ]

  pub AllSettled-remap : (n : ℕ) → AllSettled (suc n) m → AllSettled (suc (suc n)) m'
  AllSettled-remap n all k h = elim (Bool-cases (contains k ks)) [
    | inl listed ↦ Settled-listed n k listed
    | inr free ↦
        let kept : lookup k m' ≡ lookup k m = e.looked k ∙ rw free in
        let s = all k (λ q. h (kept ∙ q)) in chase (suc n) k s.0 s.1
  ]

-- The names that `Put` maps.
abbrev pub put_names : String → String → String → String → String → List String
put_names default_schema schema relation alias fqtn =
    relation
    ∷ fqtn
    ∷ ((if is_empty schema && not (is_empty default_schema)
          then (default_schema <> ("." <> relation)) ∷ []
          else [])
        ++ (if is_empty alias then [] else alias ∷ []))

pub lookup-map_names :
    (m : Map String) (d s r a f j : String)
    → lookup j (map_names m d s r a f)
      ≡ (if contains j (put_names d s r a f) then some f else lookup j m)
unfolding map_names
lookup-map_names m d s r a f j = elim (Bool-cases (is_empty s && not (is_empty d))) [
  | inl p ↦ elim (Bool-cases (is_empty a)) [
    | inl q ↦ rw (p, q) (simp lookup-insert (ground arith))
    | inr q ↦ rw (p, q) (simp lookup-insert (ground arith))
  ]
  | inr p ↦ elim (Bool-cases (is_empty a)) [
    | inl q ↦ rw (p, q) (simp lookup-insert (ground arith))
    | inr q ↦ rw (p, q) (simp lookup-insert (ground arith))
  ]
]

-- A successful `Put` in terms of what it was given.
pub record IsPut (t : Tables) (c s r a f : String) (t' : Tables) : Type 0 where
  pub named : is_empty r ≡ false
  pub full : f ≡ full_name c s r
  pub counted : t'.sources ≡ t.sources + 1
  pub same_default : t'.default_schema ≡ t.default_schema
  pub mapped : t'.m ≡ map_names t.m t.default_schema s r a f

pub put-IsPut :
    (t : Tables) (c s r a : String) {f : String} {t' : Tables}
    → put t c s r a ≡ ok (f, t')
    → IsPut t c s r a f t'
unfolding put
put-IsPut t c s r a h = ground arith

pub put-IsRemap :
    (t : Tables) (c s r a : String) {f : String} {t' : Tables}
    → put t c s r a ≡ ok (f, t')
    → IsRemap (put_names t.default_schema s r a f) f t.m t'.m
put-IsRemap t c s r a {f} {t'} h =
    let p = put-IsPut t c s r a h in
    let looked = lookup-map_names t.m t.default_schema s r a f in
    record {
      looked = rw p.mapped looked;
      fixed = rw p.mapped (looked f ∙ rw eq_refl (ground arith));
    }

-- The tables that a handler has while it collects, and those that it has after `Finalize`.
pub data Collected : Tables → Type 0 where
  fresh : (default_schema : String) → Collected (new_tables default_schema)
  another :
      {t t' : Tables} {f : String} (c s r a : String)
      → Collected t
      → put t c s r a ≡ ok (f, t')
      → Collected t'

pub data Built : Tables → Type 0 where
  collected : {t : Tables} → Collected t → Built t
  finalized : {t t' : Tables} → Collected t → finalize t ≡ ok t' → Built t'

pub AllSettled-Collected : {t : Tables} → Collected t → AllSettled (suc t.sources) t.m
unfolding new_tables lookup
AllSettled-Collected (fresh d) = λ k h. absurd (h refl)
AllSettled-Collected (another {t} {t'} {f} c s r a g h) =
    let p = put-IsPut t c s r a h in
    let grown : t'.sources ≡ suc t.sources = omega (arith, p.counted) in
    rw grown (
      AllSettled-remap (put_names t.default_schema s r a f) f t.m t'.m (put-IsRemap t c s r a h)
        t.sources (AllSettled-Collected g))
