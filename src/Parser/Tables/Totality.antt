-- ===== src/Parser/Tables/Totality.antt =====
-- `Get` ends, and `GetAll` and `Finalize` succeed, on all tables that the parser builds.
use database_gateway.Common.{
  ℕ, zero, suc, ◌+◌, ◌≡◌, refl, ◌≢◌, ◌⊎◌, inl, inr, ◌↔◌, String, ◌∙◌, ap, sym, subst,
}
use database_gateway.Common.{none, some, List, [], ◌∷◌, arith, All, All-map_to, In}
use database_gateway.Common.{
  Map, keys, lookup, insert, lookup-insert, contains, ◌==◌, eq_iff, eq_refl,
}
use database_gateway.Common.{
  contains-In, In-All, ok_injective, ok, >>=-eq-ok, Option-cases, Bool-cases,
}
use database_gateway.Common.Text.{◌=ℕ◌}
use database_gateway.Parser.Tables.{
  Tables, Found, diverges, missing, resolved, resolve, get, get_each,
}
use database_gateway.Parser.Tables.{get_all, default_to, finalize, add_unique}
use database_gateway.Parser.Tables.Resolution.{
  AllSettled, IsRemap, AllSettled-remap, Collected, Built,
}
use database_gateway.Parser.Tables.Resolution.{
  collected, finalized, AllSettled-Collected, resolve_hit, resolve_next, resolve-zero,
  resolve_unmapped,
}

-- More fuel changes nothing.
resolve_mono :
    (n : ℕ) (m : Map String) (k r : String)
    → resolve n m k ≡ resolved r
    → resolve (suc n) m k ≡ resolved r
resolve_mono zero m k r h = absurd (resolve-zero m k r h)
resolve_mono (suc n) m k r h = elim (Option-cases (lookup k m)) [
  | inl unmapped ↦ cc (resolve_unmapped m k n unmapped)
  | inr (v, found) ↦ elim (Bool-cases (v == k)) [
    | inl same ↦
        let loop : lookup k m ≡ some k = found ∙ ap some ((eq_iff v k).0 same) in
        resolve_hit m k (suc n) loop ∙ (sym (resolve_hit m k n loop) ∙ h)
    | inr other ↦
        resolve_next m k (suc n) v found other
        ∙ resolve_mono n m v r (sym (resolve_next m k n v found other) ∙ h)
  ]
]

pub Found-cases : (f : Found) → ((r : String) × (f ≡ resolved r)) ⊎ ((f ≡ missing) ⊎ (f ≡ diverges))
Found-cases (resolved r) = inl (r, refl)
Found-cases missing = inr (inl refl)
Found-cases diverges = inr (inr refl)

add_unique-In : (r x : String) (xs : List String) → In x (add_unique r xs) → (r ≡ x) ⊎ In x xs
unfolding add_unique
add_unique-In r x xs i = elim (Bool-cases (contains r xs)) [
  | inl old ↦ inr (rw old at i)
  | inr new ↦ rw new at i
]

In-add_unique : (r x : String) (xs : List String) → (r ≡ x) ⊎ In x xs → In x (add_unique r xs)
unfolding add_unique
In-add_unique r x xs i = elim (Bool-cases (contains r xs)) [
  | inl old ↦ rw old (elim i [ inl same ↦ rw same at (contains-In r xs old) | inr j ↦ j ])
  | inr new ↦ rw new i
]

keys_mapped : (m : Map String) → All (λ k. lookup k m ≢ none) (keys m)
unfolding lookup
keys_mapped [] = tt
keys_mapped ((k, v) ∷ m) =
    (λ h. cc (rw eq_refl at h), All-map_to (λ j old. ground (arith, old)) (keys m) (keys_mapped m))

lookup-In-keys : (k v : String) (m : Map String) → lookup k m ≡ some v → In k (keys m)
unfolding lookup
lookup-In-keys k v [] h = cc
lookup-In-keys k v ((j, w) ∷ m) h = elim (Bool-cases (j == k)) [
  | inl same ↦ inl ((eq_iff j k).0 same)
  | inr other ↦ inr (lookup-In-keys k v m (rw other at h))
]

module _ (t : Tables) (s : AllSettled (suc (suc t.sources)) t.m) where
  -- A mapped name resolves, to a name that is mapped to itself.
  pub get_mapped :
      (k : String)
      → lookup k t.m ≢ none
      → (r : String) × (get t k ≡ resolved r) × (lookup r t.m ≡ some r)
  unfolding get
  get_mapped k h =
      let (r, e, x) = s k h in
      let fuel : t.sources + 2 ≡ suc (suc t.sources) = omega arith in (r, rw fuel e, x)

  pub get_unmapped : (k : String) → lookup k t.m ≡ none → get t k ≡ missing
  unfolding get
  get_unmapped k h =
      let fuel : t.sources + 2 ≡ suc (suc t.sources) = omega arith in
      rw fuel (resolve_unmapped t.m k (suc t.sources) h)

  get-ne-diverges : (k : String) → get t k ≢ diverges
  get-ne-diverges k = elim (Option-cases (lookup k t.m)) [
    | inl unmapped ↦ λ q. cc (get_unmapped k unmapped)
    | inr (v, found) ↦ λ q. cc ((get_mapped k (λ e. cc)).1)
  ]

  pub get_fixed : (k : String) → lookup k t.m ≡ some k → get t k ≡ resolved k
  unfolding get
  get_fixed k h =
      let fuel : t.sources + 2 ≡ suc (suc t.sources) = omega arith in
      rw fuel (resolve_hit t.m k (suc t.sources) h)

  pub get-resolved_fixed : (k r : String) → get t k ≡ resolved r → lookup r t.m ≡ some r
  get-resolved_fixed k r h = elim (Option-cases (lookup k t.m)) [
    | inl unmapped ↦ cc (get_unmapped k unmapped)
    | inr (v, found) ↦
        let (r', e, x) = get_mapped k (λ q. cc) in let same : r' ≡ r = cc in rw same at x
  ]

  get_each_total :
      (ks final : List String)
      → All (λ k. lookup k t.m ≢ none) ks
      → (xs : List String) × (get_each t ks final ≡ ok xs)
  unfolding get_each
  get_each_total [] final _ = (final, refl)
  get_each_total (k ∷ ks) final (h, hs) =
      let (r, e, x) = get_mapped k h in
      let (xs, e') = get_each_total ks (add_unique r final) hs in (xs, rw (e, get_each) e')

  -- What `GetAll` collects from the keys `ks`.
  get_each-In :
      (ks final xs : List String) (x : String)
      → get_each t ks final ≡ ok xs
      → In x xs
      → In x final ⊎ (lookup x t.m ≡ some x)
  unfolding get_each
  get_each-In [] final xs x h i = inl (subst (In x) (sym (ok_injective h)) i)
  get_each-In (k ∷ ks) final xs x h i = elim (Found-cases (get t k)) [
    | inl (r, e) ↦ elim (get_each-In ks (add_unique r final) xs x (rw (e, get_each) at h) i) [
      | inl old ↦ elim (add_unique-In r x final old) [
        | inl same ↦ inr (rw same at (get-resolved_fixed k r e))
        | inr older ↦ inl older
      ]
      | inr found ↦ inr found
    ]
    | inr (inl e) ↦ cc (rw (e, get_each) at h)
    | inr (inr e) ↦ cc (rw (e, get_each) at h)
  ]

  get_each_keeps :
      (ks final xs : List String) (x : String)
      → get_each t ks final ≡ ok xs
      → In x final ⊎ (In x ks × (lookup x t.m ≡ some x))
      → In x xs
  unfolding get_each
  get_each_keeps [] final xs x h (inl i) = subst (In x) (ok_injective h) i
  get_each_keeps [] final xs x h (inr (i, _)) = elim i [ ]
  get_each_keeps (k ∷ ks) final xs x h i = elim (Found-cases (get t k)) [
    | inl (r, e) ↦ get_each_keeps ks (add_unique r final) xs x (rw (e, get_each) at h) (elim i [
      | inl old ↦ inl (In-add_unique r x final (inr old))
      | inr (inl same, fixed) ↦
          let q : get t k ≡ resolved x = rw same (get_fixed x fixed) in
          inl (In-add_unique r x final (inl cc))
      | inr (inr later, fixed) ↦ inr (later, fixed)
    ])
    | inr (inl e) ↦ cc (rw (e, get_each) at h)
    | inr (inr e) ↦ cc (rw (e, get_each) at h)
  ]

  get_all_total : (xs : List String) × (get_all t ≡ ok xs)
  unfolding get_all
  get_all_total = get_each_total (keys t.m) [] (keys_mapped t.m)

  pub get_all-In :
      (xs : List String) (x : String) → get_all t ≡ ok xs → In x xs ↔ (lookup x t.m ≡ some x)
  unfolding get_all
  get_all-In xs x h = (
    λ i. elim (get_each-In (keys t.m) [] xs x h i) [ inl old ↦ elim old [ ] | inr e ↦ e ],
    λ e. get_each_keeps (keys t.m) [] xs x h (inr (lookup-In-keys x x t.m e, e)),
  )

AllSettled-mono : (n : ℕ) (m : Map String) → AllSettled n m → AllSettled (suc n) m
AllSettled-mono n m all k h = let (r, e, x) = all k h in (r, resolve_mono n m k r e, x)

insert-IsRemap :
    (m : Map String) (table : String)
    → lookup table m ≡ some table
    → IsRemap ("" ∷ []) table m (insert "" table m)
insert-IsRemap m table h = record {
  looked = λ j. lookup-insert "" j table m ∙ ground arith;
  fixed = lookup-insert "" table table m ∙ ground arith;
}

-- `Finalize` keeps the names settled, with one more round.
default_to-AllSettled :
    (t : Tables) (xs : List String)
    → AllSettled (suc t.sources) t.m
    → All (λ x. lookup x t.m ≡ some x) xs
    → AllSettled (suc (suc (default_to t xs).sources)) (default_to t xs).m
unfolding default_to
default_to-AllSettled t [] all _ = AllSettled-mono (suc t.sources) t.m all
default_to-AllSettled t (x ∷ y ∷ xs) all _ = AllSettled-mono (suc t.sources) t.m all
default_to-AllSettled t (x ∷ []) all (h, _) = elim (Bool-cases (t.sources =ℕ 1)) [
  | inl single ↦
      rw single
        (AllSettled-remap ("" ∷ []) x t.m (insert "" x t.m) (insert-IsRemap t.m x h) t.sources all)
  | inr several ↦ rw several (AllSettled-mono (suc t.sources) t.m all)
]

pub default_to-finalize :
    (t : Tables) {t' : Tables}
    → finalize t ≡ ok t'
    → (xs : List String) × (get_all t ≡ ok xs) × (t' ≡ default_to t xs)
unfolding finalize
default_to-finalize t h =
    let (xs, e, q) = >>=-eq-ok (get_all t) (λ xs. ok (default_to t xs)) h in
    (xs, e, sym (ok_injective q))

AllSettled-Collected_more : {t : Tables} → Collected t → AllSettled (suc (suc t.sources)) t.m
AllSettled-Collected_more {t} c = AllSettled-mono (suc t.sources) t.m (AllSettled-Collected c)

AllSettled-finalize :
    {t t' : Tables} → Collected t → finalize t ≡ ok t' → AllSettled (suc (suc t'.sources)) t'.m
AllSettled-finalize {t} c h =
    let (xs, e, q) = default_to-finalize t h in
    rw q (
      default_to-AllSettled t xs (AllSettled-Collected c)
        (In-All xs (λ x i. (get_all-In t (AllSettled-Collected_more c) xs x e).0 i)))

pub AllSettled-Built : {t : Tables} → Built t → AllSettled (suc (suc t.sources)) t.m
AllSettled-Built (collected c) = AllSettled-Collected_more c
AllSettled-Built (finalized c h) = AllSettled-finalize c h

-- On tables that are built by any sequence of successful calls of Put, with a call of Finalize at
-- the end or without one, the recursion of Get ends for every name: the fuel never runs out.
pub get-ne-diverges_of_Built : {t : Tables} → Built t → (name : String) → get t name ≢ diverges
get-ne-diverges_of_Built {t} b = get-ne-diverges t (AllSettled-Built b)

-- On tables that are built by any sequence of successful calls of Put, with a call of Finalize at
-- the end or without one, GetAll succeeds, and a name is among those that it returns exactly when it
-- is mapped to itself.
pub get_all_of_Built :
    {t : Tables}
    → Built t
    → (xs : List String) × (get_all t ≡ ok xs) × ((x : String) → In x xs ↔ (lookup x t.m ≡ some x))
get_all_of_Built {t} b =
    let s = AllSettled-Built b in
    let (xs, e) = get_all_total t s in (xs, e, λ x. get_all-In t s xs x e)
