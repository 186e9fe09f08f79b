-- ===== src/Parser/Select/Sources.antt =====
-- The tables of a `FROM` clause, and which of them `Tables` still lists at the end.
use database_gateway.Common.{◌≡◌, refl, ◌∙◌, ap, subst, ◌⊎◌, String, false, List}
use database_gateway.Common.{[], ◌∷◌, ◌++◌, contains, Result, ok, ◌>>=◌, >>=-eq-ok, >>-eq-ok}
use database_gateway.Common.{All, ok_injective, reject_if, wrapping, Sentinel}
use database_gateway.Parser.Ast.{Node, RangeVar, range_var, join_expr}
use database_gateway.Parser.Tables.{Tables, new_tables, put, full_name}
use database_gateway.Parser.Tables.Resolution.{put_names, put-IsPut, Collected, fresh, another}
use database_gateway.Parser.Select.{
  alias_name, add_range_var, collect_select_from_tables, has_join_options,
}

-- The tables of a `FROM` item, from left to right.
unfoldable pub range_vars : Node → List RangeVar
range_vars (range_var tbl) = tbl ∷ []
range_vars (join_expr options larg rarg quals) = range_vars larg ++ range_vars rarg
range_vars _ = []

abbrev pub full_name_of : RangeVar → String
full_name_of r = full_name r.catalogname r.schemaname r.relname

-- The names under which a statement can mention a table, with `public` as the default schema.
abbrev pub names_of : RangeVar → List String
names_of r = put_names "public" r.schemaname r.relname (alias_name r) (full_name_of r)

unfoldable pub put_all : Tables → List RangeVar → Result Tables
put_all t [] = ok t
put_all t (r ∷ rs) = do t' ← add_range_var t r; put_all t' rs

put_all-append :
    (t t1 t2 : Tables) (rs qs : List RangeVar)
    → put_all t rs ≡ ok t1
    → put_all t1 qs ≡ ok t2
    → put_all t (rs ++ qs) ≡ ok t2
unfolding put_all
put_all-append t t1 t2 [] qs h k = ap (λ u. put_all u qs) (ok_injective h) ∙ k
put_all-append t t1 t2 (r ∷ rs) qs h k =
    let (u, e, h') = >>=-eq-ok (add_range_var t r) (λ u. put_all u rs) h in
    rw e (put_all-append u t1 t2 rs qs h' k)

pub put_all-append_inv :
    (rs : List RangeVar) (q : RangeVar) (t t' : Tables)
    → put_all t (rs ++ (q ∷ [])) ≡ ok t'
    → (u : Tables) × (put_all t rs ≡ ok u) × (add_range_var u q ≡ ok t')
unfolding put_all
put_all-append_inv [] q t t' h =
    let (u, e, h') = >>=-eq-ok (add_range_var t q) (λ u. put_all u []) h in (t, refl, e ∙ h')
put_all-append_inv (r ∷ rs) q t t' h =
    let (v, e, h') = >>=-eq-ok (add_range_var t r) (λ v. put_all v (rs ++ (q ∷ []))) h in
    let (u, a, b) = put_all-append_inv rs q v t' h' in (u, rw e a, b)

-- Collecting a `FROM` item puts its tables, from left to right.
pub collect-put_all :
    (n : Node) (t t' : Tables)
    → collect_select_from_tables t n ≡ ok t'
    → put_all t (range_vars n) ≡ ok t'
unfolding collect_select_from_tables range_vars put_all
collect-put_all (range_var tbl) t t' h = rw h
collect-put_all (join_expr options larg rarg quals) t t' h =
    let (_, h1) =
      >>-eq-ok
        (reject_if (has_join_options options) (wrapping Sentinel.not_implemented "join expression"))
        (collect_select_from_tables t larg >>= λ u. collect_select_from_tables u rarg) h in
    let (u, e, h2) =
      >>=-eq-ok (collect_select_from_tables t larg) (λ u. collect_select_from_tables u rarg) h1 in
    put_all-append t u t' (range_vars larg) (range_vars rarg) (collect-put_all larg t u e)
      (collect-put_all rarg u t' h2)
collect-put_all _ t t' h = cc

-- Adding a table is a Put under its full name.
pub add_range_var-put :
    (t t' : Tables) (r : RangeVar)
    → add_range_var t r ≡ ok t'
    → put t r.catalogname r.schemaname r.relname (alias_name r) ≡ ok (full_name_of r, t')
unfolding add_range_var
add_range_var-put t t' r h =
    let step = put t r.catalogname r.schemaname r.relname (alias_name r) in
    let ((f, u), e, q) = >>=-eq-ok step (λ (f, u). ok u) h in
    let p = put-IsPut t r.catalogname r.schemaname r.relname (alias_name r) e in
    e ∙ (λ i. ok (p.full i, ok_injective q i))

put_all-Collected :
    (rs : List RangeVar) (t t' : Tables) → put_all t rs ≡ ok t' → Collected t → Collected t'
unfolding put_all
put_all-Collected [] t t' h c = subst Collected (ok_injective h) c
put_all-Collected (r ∷ rs) t t' h c =
    let (u, e, h') = >>=-eq-ok (add_range_var t r) (λ u. put_all u rs) h in
    put_all-Collected rs u t' h'
      (another r.catalogname r.schemaname r.relname (alias_name r) c (add_range_var-put t u r e))

pub collect-Collected :
    (n : Node) (t : Tables)
    → collect_select_from_tables (new_tables "public") n ≡ ok t
    → Collected t
collect-Collected n t h =
    put_all-Collected (range_vars n) (new_tables "public") t
      (collect-put_all n (new_tables "public") t h) (fresh "public")

-- No later table takes a name that is spelled like the full name of an earlier other table.
abbrev pub IsUnmasked : List RangeVar → Type 0
IsUnmasked [] = Unit
IsUnmasked (r ∷ rs) =
    All (λ q. (contains (full_name_of r) (names_of q) ≡ false) ⊎ (full_name_of q ≡ full_name_of r))
      rs
    × IsUnmasked rs
