-- ===== src/Parser/Select/Kept.antt =====
-- Which tables of a FROM clause stay mapped to themselves.
use database_gateway.Common.{
  ◌≡◌, refl, ◌≢◌, ◌∙◌, sym, ◌⊎◌, inl, inr, ◌↔◌, String, true, false, some, List,
}
use database_gateway.Common.{
  [], ◌∷◌, ◌++◌, arith, lookup, lookup-insert, contains, ok, >>=-eq-ok, if◌then◌else◌, ◌==◌, eq_iff,
}
use database_gateway.Common.{
  All, In-All, Some, some-injective, Bool-cases, All-map_to, ok_injective,
}
use database_gateway.Common.Text.{is_empty, ◌=ℕ◌}
use text.Mathlib.TextLemmas.{append-eq-nil_iff}
use database_gateway.Parser.Ast.{Node, RangeVar}
use database_gateway.Parser.Tables.{Tables, new_tables, put, full_name, default_to, finalize}
use database_gateway.Parser.Tables.Resolution.{put-IsPut, put-IsRemap}
use database_gateway.Parser.Tables.Resolution.{collected}
use database_gateway.Parser.Tables.Masking.{lookup-put}
use database_gateway.Parser.Tables.Totality.{default_to-finalize, AllSettled-Built, get_all-In}
use database_gateway.Parser.Select.{alias_name, add_range_var, collect_select_from_tables}
use database_gateway.Parser.Select.Sources.{
  range_vars, full_name_of, names_of, put_all, put_all-append_inv, collect-put_all,
  add_range_var-put, collect-Collected, IsUnmasked,
}

-- One more table: what is mapped to itself afterwards.
module _ (t t' : Tables) (r : RangeVar) (d : t.default_schema ≡ "public")
    (h : add_range_var t r ≡ ok t') where
  step : put t r.catalogname r.schemaname r.relname (alias_name r) ≡ ok (full_name_of r, t')
  step = add_range_var-put t t' r h

  looked :
      (j : String)
      → lookup j t'.m ≡ (if contains j (names_of r) then some (full_name_of r) else lookup j t.m)
  looked j = rw d at (lookup-put t t' r.catalogname r.schemaname r.relname (alias_name r) step j)

  add_range_var-default : t'.default_schema ≡ "public"
  add_range_var-default =
      (put-IsPut t r.catalogname r.schemaname r.relname (alias_name r) step).same_default ∙ d

  add_range_var_fixed : lookup (full_name_of r) t'.m ≡ some (full_name_of r)
  add_range_var_fixed =
      (put-IsRemap t r.catalogname r.schemaname r.relname (alias_name r) step).fixed

  add_range_var_keeps :
      (x : String)
      → lookup x t.m ≡ some x
      → (contains x (names_of r) ≡ false) ⊎ (full_name_of r ≡ x)
      → lookup x t'.m ≡ some x
  add_range_var_keeps x old (inl free) = looked x ∙ rw free old
  add_range_var_keeps x old (inr same) = rw same at add_range_var_fixed

  add_range_var_only :
      (x : String) → lookup x t'.m ≡ some x → (full_name_of r ≡ x) ⊎ (lookup x t.m ≡ some x)
  add_range_var_only x fixed = elim (Bool-cases (contains x (names_of r))) [
    | inl listed ↦ inl (some-injective _ _ (sym (looked x ∙ rw listed) ∙ fixed))
    | inr free ↦ inr (sym (looked x ∙ rw free) ∙ fixed)
  ]

  relname_nonempty : is_empty r.relname ≡ false
  relname_nonempty = (put-IsPut t r.catalogname r.schemaname r.relname (alias_name r) step).named

full_name-ne-nil : (c s r : String) → is_empty r ≡ false → full_name c s r ≢ ""
unfolding full_name
full_name-ne-nil c s r named h =
    let tail = (append-eq-nil_iff.0 (append-eq-nil_iff.0 h).1).1 in ground (arith, rw tail at named)

put_all-inv :
    (r : RangeVar) (rs : List RangeVar) (t t' : Tables)
    → put_all t (r ∷ rs) ≡ ok t'
    → (u : Tables) × (add_range_var t r ≡ ok u) × (put_all u rs ≡ ok t')
unfolding put_all
put_all-inv r rs t t' h = >>=-eq-ok (add_range_var t r) (λ u. put_all u rs) h

-- A table that is mapped to itself at the end is one of those put, or was so before.
put_all_only :
    (rs : List RangeVar) (t t' : Tables)
    → t.default_schema ≡ "public"
    → put_all t rs ≡ ok t'
    → (x : String) → lookup x t'.m ≡ some x
    → Some (λ r. full_name_of r ≡ x) rs ⊎ (lookup x t.m ≡ some x)
unfolding put_all
put_all_only [] t t' d h x fixed = inr (rw (ok_injective h) fixed)
put_all_only (r ∷ rs) t t' d h x fixed =
    let (u, e, h') = put_all-inv r rs t t' h in
    elim (put_all_only rs u t' (add_range_var-default t u r d e) h' x fixed) [
      | inl later ↦ inl (inr later)
      | inr earlier ↦ elim (add_range_var_only t u r d e x earlier) [
        | inl own ↦ inl (inl own)
        | inr old ↦ inr old
      ]
    ]

put_all_keeps :
    (rs : List RangeVar) (t t' : Tables)
    → t.default_schema ≡ "public"
    → put_all t rs ≡ ok t'
    → (x : String) → lookup x t.m ≡ some x
    → All (λ q. (contains x (names_of q) ≡ false) ⊎ (full_name_of q ≡ x)) rs
    → lookup x t'.m ≡ some x
unfolding put_all
put_all_keeps [] t t' d h x old _ = rw (ok_injective h) at old
put_all_keeps (r ∷ rs) t t' d h x old (free, frees) =
    let (u, e, h') = put_all-inv r rs t t' h in
    put_all_keeps rs u t' (add_range_var-default t u r d e) h' x
      (add_range_var_keeps t u r d e x old free) frees

put_all_fixed :
    (rs : List RangeVar) (t t' : Tables)
    → t.default_schema ≡ "public"
    → put_all t rs ≡ ok t'
    → IsUnmasked rs
    → All (λ r. lookup (full_name_of r) t'.m ≡ some (full_name_of r)) rs
put_all_fixed [] t t' d h _ = tt
put_all_fixed (r ∷ rs) t t' d h (free, frees) =
    let (u, e, h') = put_all-inv r rs t t' h in
    let d' = add_range_var-default t u r d e in
    (
      put_all_keeps rs u t' d' h' (full_name_of r) (add_range_var_fixed t u r d e) free,
      put_all_fixed rs u t' d' h' frees,
    )

put_all-default :
    (rs : List RangeVar) (t t' : Tables)
    → t.default_schema ≡ "public"
    → put_all t rs ≡ ok t'
    → t'.default_schema ≡ "public"
unfolding put_all
put_all-default [] t t' d h = rw (ok_injective h) at d
put_all-default (r ∷ rs) t t' d h =
    let (u, e, h') = put_all-inv r rs t t' h in
    put_all-default rs u t' (add_range_var-default t u r d e) h'

put_all-named :
    (rs : List RangeVar) (t t' : Tables)
    → t.default_schema ≡ "public"
    → put_all t rs ≡ ok t'
    → All (λ r. is_empty r.relname ≡ false) rs
put_all-named [] t t' d h = tt
put_all-named (r ∷ rs) t t' d h =
    let (u, e, h') = put_all-inv r rs t t' h in
    (relname_nonempty t u r d e, put_all-named rs u t' (add_range_var-default t u r d e) h')

-- No table has the empty name.
named_of_Some :
    (rs : List RangeVar)
    → All (λ r. is_empty r.relname ≡ false) rs
    → ¬ Some (λ r. full_name_of r ≡ "") rs
named_of_Some [] _ h = elim h [ ]
named_of_Some (r ∷ rs) (named, _) (inl e) =
    full_name-ne-nil r.catalogname r.schemaname r.relname named e
named_of_Some (r ∷ rs) (_, later) (inr h) = named_of_Some rs later h

-- `Finalize` changes none of the tables that are mapped to themselves.
default_to_fixed :
    (t : Tables) (xs : List String)
    → All (λ y. lookup y t.m ≡ some y) xs
    → lookup "" t.m ≢ some ""
    → (x : String) → (lookup x (default_to t xs).m ≡ some x) ↔ (lookup x t.m ≡ some x)
unfolding default_to
default_to_fixed t [] _ n x = ((λ h. h), (λ h. h))
default_to_fixed t (y ∷ z ∷ xs) _ n x = ((λ h. h), (λ h. h))
default_to_fixed t (y ∷ []) (own, _) n x = elim (Bool-cases (t.sources =ℕ 1)) [
  | inl single ↦ rw single (
      rw (lookup-insert "" x y t.m) (elim (Bool-cases ("" == x)) [
        | inl same ↦
            let q : "" ≡ x = (eq_iff "" x).0 same in
            rw same (
              (λ e. absurd (n (let z : y ≡ "" = some-injective _ _ e ∙ sym q in rw z at own))),
              (λ e. absurd (n (rw (← q) at e))),
            )
        | inr other ↦ rw other ((λ h. h), (λ h. h))
      ]))
  | inr several ↦ rw several ((λ h. h), (λ h. h))
]

none_at_start : (x : String) → lookup x (new_tables "public").m ≢ some x
unfolding new_tables lookup
none_at_start x h = cc

module _ (n : Node) (c t : Tables) (h : collect_select_from_tables (new_tables "public") n ≡ ok c)
    (k : finalize c ≡ ok t) where
  puts : put_all (new_tables "public") (range_vars n) ≡ ok c
  puts = collect-put_all n (new_tables "public") c h

  start-default : (new_tables "public").default_schema ≡ "public"
  unfolding new_tables
  start-default = refl

  collected_only :
      (x : String) → lookup x c.m ≡ some x → Some (λ r. full_name_of r ≡ x) (range_vars n)
  collected_only x fixed =
      elim (put_all_only (range_vars n) (new_tables "public") c start-default puts x fixed) [
        | inl put ↦ put
        | inr old ↦ absurd (none_at_start x old)
      ]

  finalized_fixed : (x : String) → (lookup x t.m ≡ some x) ↔ (lookup x c.m ≡ some x)
  finalized_fixed x =
      let (xs, e, q) = default_to-finalize c k in
      let tables = get_all-In c (AllSettled-Built (collected (collect-Collected n c h))) xs in
      rw q (
        default_to_fixed c xs (In-All xs (λ y i. (tables y e).0 i))
          (λ own.
            named_of_Some (range_vars n)
              (put_all-named (range_vars n) (new_tables "public") c start-default puts)
              (collected_only "" own))
          x)

  -- After `Finalize` only tables of the `FROM` item are mapped to themselves.
  pub from_only :
      (x : String) → lookup x t.m ≡ some x → Some (λ r. full_name_of r ≡ x) (range_vars n)
  from_only x fixed = collected_only x ((finalized_fixed x).0 fixed)

  -- All of them are, if no table is masked.
  pub from_fixed :
      IsUnmasked (range_vars n)
      → All (λ r. lookup (full_name_of r) t.m ≡ some (full_name_of r)) (range_vars n)
  from_fixed free =
      All-map_to (λ r own. (finalized_fixed (full_name_of r)).1 own) (range_vars n)
        (put_all_fixed (range_vars n) (new_tables "public") c start-default puts free)

  -- A name that the last table takes from another is not mapped to itself.
  pub from_masked :
      (rs : List RangeVar) (q : RangeVar)
      → range_vars n ≡ rs ++ (q ∷ [])
      → (x : String) → contains x (names_of q) ≡ true
      → full_name_of q ≢ x
      → lookup x t.m ≢ some x
  from_masked rs q ends x taken other own =
      let (u, a, b) = put_all-append_inv rs q (new_tables "public") c (rw ends at puts) in
      let d = put_all-default rs (new_tables "public") u start-default a in
      other (some-injective _ _ (sym (looked u c q d b x ∙ rw taken) ∙ (finalized_fixed x).0 own))
