-- ===== src/Common/Sorting.antt =====
-- `slices.Sort` on texts. Go compares their bytes, and UTF-8 keeps the order of the code points. A
-- sorted list of texts is the same for every algorithm, here insertion.
use Prim.Native.Char.{code}
use Prim.Native.String.{String, [], ◌∷◌}
use mathlib.Core.Path.{◌≡◌, refl, ◌∙◌, ap}
use mathlib.Core.Bool.{Bool, true, false, not, ◌&&◌, ◌||◌}
use mathlib.Core.List.{List, Permᴰ}
use native.Mathlib.Omega.{arith}
use text.Mathlib.TextEquality.{Char-path}
use package.database_gateway.Common.Results.{if◌then◌else◌}
use package.database_gateway.Common.Text.{leb, ◌=ℕ◌}

-- `s <= t`
unfoldable pub text_leb : String → String → Bool
text_leb [] t = true
text_leb (c ∷ s) [] = false
text_leb (c ∷ s) (d ∷ t) =
    let rest = text_leb s t in leb (code c) (code d) && (not (code c =ℕ code d) || rest)

unfoldable pub put_in_order : String → List String → List String
unfolding text_leb
put_in_order x List.[] = List.◌∷◌ x List.[]
put_in_order x (List.◌∷◌ y ys) =
    let rest = put_in_order x ys in
    if text_leb x y then List.◌∷◌ x (List.◌∷◌ y ys) else List.◌∷◌ y rest

unfoldable pub sort : List String → List String
unfolding put_in_order
sort List.[] = List.[]
sort (List.◌∷◌ x xs) = put_in_order x (sort xs)

total : (s t : String) → text_leb s t ≡ false → text_leb t s ≡ true
unfolding text_leb
total [] t h = cc
total (c ∷ s) [] h = refl
total (c ∷ s) (d ∷ t) h = ground (arith, total s t)

leb_trans : (s t u : String) → text_leb s t ≡ true → text_leb t u ≡ true → text_leb s u ≡ true
unfolding text_leb
leb_trans [] t u h k = refl
leb_trans (c ∷ s) [] u h k = cc
leb_trans (c ∷ s) (d ∷ t) [] h k = cc
leb_trans (c ∷ s) (d ∷ t) (e ∷ u) h k = ground (arith, leb_trans s t u)

leb_antisym : (s t : String) → text_leb s t ≡ true → text_leb t s ≡ true → s ≡ t
unfolding text_leb
leb_antisym [] [] h k = refl
leb_antisym [] (d ∷ t) h k = cc
leb_antisym (c ∷ s) [] h k = cc
leb_antisym (c ∷ s) (d ∷ t) h k =
    let same : code c ≡ code d = ground arith in
    let later : text_leb s t ≡ true = ground arith in
    let sooner : text_leb t s ≡ true = ground arith in
    ap (λ e. e ∷ s) (Char-path c d same) ∙ ap (λ u. d ∷ u) (leb_antisym s t later sooner)

put_in_order-put_in_order :
    (x y : String) (zs : List String)
    → put_in_order x (put_in_order y zs) ≡ put_in_order y (put_in_order x zs)
unfolding put_in_order
put_in_order-put_in_order x y List.[] = ground (arith, total x y, leb_antisym x y)
put_in_order-put_in_order x y (List.◌∷◌ z zs) =
    let later = put_in_order-put_in_order x y zs in
    ground (
      arith,
      total x y,
      total x z,
      total y z,
      leb_antisym x y,
      leb_trans x y z,
      leb_trans y x z,
      later,
    )

-- The order of a list does not matter to its sorted list.
pub sort-Perm : (xs ys : List String) → Permᴰ xs ys → sort xs ≡ sort ys
unfolding sort
sort-Perm _ _ Permᴰ.nil = refl
sort-Perm _ _ (Permᴰ.cons {b = b} {l₁ = xs} {l₂ = ys} e p) =
    ap (λ x. put_in_order x (sort xs)) e ∙ ap (λ l. put_in_order b l) (sort-Perm xs ys p)
sort-Perm _ _ (Permᴰ.swap {a = a} {b = b} {a' = a'} {l = l} e f) =
    put_in_order-put_in_order a b (sort l)
    ∙ (ap (λ x. put_in_order x (put_in_order a (sort l))) f
        ∙ ap (λ x. put_in_order a' (put_in_order x (sort l))) e)
sort-Perm _ _ (Permᴰ.trans {l₂ = ys} p q) = sort-Perm _ ys p ∙ sort-Perm ys _ q
