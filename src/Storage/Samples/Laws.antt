-- ===== src/Storage/Samples/Laws.antt =====
-- The database in memory keeps what SQL promises.
use database_gateway.Common.{
  ◌≡◌, refl, sym, ap, ◌∙◌, subst, ◌⊎◌, inl, inr, ◌↔◌, ℕ, zero, suc, ◌≤◌, Bool, true, false, not,
  Option, none, some, List, [], ◌∷◌, length, In, arith, Bool-cases,
}
use database_gateway.Common.Just.{keep}
use database_gateway.App.Values.{ℤ, pos, negsuc}
use database_gateway.App.Requests.{take}
use database_gateway.Storage.Failures.{DbError, Answer, answered, broken, Affected}
use database_gateway.Storage.Database.{
  QueryResultsRow, BookmarksRow, Condition, of_results, of_bookmarks, Select, Statement,
  insert_results, insert_bookmarks, delete_bookmarks, SqlTables,
}
use database_gateway.Storage.Samples.{Rows, not_under, limited, first_row, memory}

kept_cases :
    {A : Type 0} (p : A → Bool) (x y : A) (ys : List A)
    → p y ≡ true
    → In x (keep (y ∷ ys) p)
    → (y ≡ x) ⊎ In x (keep ys p)
kept_cases p x y ys kept i = rw kept at i

keep-In :
    {A : Type 0} (p : A → Bool) (x : A) (xs : List A) → In x (keep xs p) → In x xs × (p x ≡ true)
keep-In p x [] i = elim i [ ]
keep-In p x (y ∷ ys) i = elim (Bool-cases (p y)) [
  | inr out ↦ let (was, good) = keep-In p x ys (rw out at i) in (inr was, good)
  | inl kept ↦ elim (kept_cases p x y ys kept i) [
    | inl e ↦ (inl e, subst (λ z. p z ≡ true) e kept)
    | inr later ↦ let (was, good) = keep-In p x ys later in (inr was, good)
  ]
]

In-keep :
    {A : Type 0} (p : A → Bool) (x : A) (xs : List A) → In x xs → p x ≡ true → In x (keep xs p)
In-keep p x [] i good = elim i [ ]
In-keep p x (y ∷ ys) (inl e) good = rw (ap p e ∙ good) (inl e)
In-keep p x (y ∷ ys) (inr i) good = elim (Bool-cases (p y)) [
  | inl kept ↦ rw kept (inr (In-keep p x ys i good))
  | inr out ↦ rw out (In-keep p x ys i good)
]

In-take : {A : Type 0} (n : ℕ) (x : A) (xs : List A) → In x (take n xs) → In x xs
unfolding take
In-take zero x xs i = elim i [ ]
In-take (suc n) x [] i = elim i [ ]
In-take (suc n) x (y ∷ ys) (inl e) = inl e
In-take (suc n) x (y ∷ ys) (inr i) = inr (In-take n x ys i)

length-take-le {ℓ} : {A : Type ℓ} (n : ℕ) (xs : List A) → length (take n xs) ≤ n
unfolding take
length-take-le zero xs = omega arith
length-take-le (suc n) [] = omega arith
length-take-le (suc n) (x ∷ xs) = omega (arith, length-take-le n xs)

limited-In : {A : Type 0} (l : Option ℤ) (x : A) (xs : List A) → In x (limited l xs) → In x xs
limited-In none x xs i = i
limited-In (some (pos n)) x xs i = In-take n x xs i
limited-In (some (negsuc n)) x xs i = elim i [ ]

first_row-In :
    (rows : List QueryResultsRow) (r : QueryResultsRow) → first_row rows ≡ answered r → In r rows
first_row-In [] r h = cc
first_row-In (x ∷ xs) r h = inl (cc (h))

answered_injective : {A : Type 0} {a b : A} → answered a ≡ answered b → a ≡ b
answered_injective h = cc

first_row-none :
    (rows : List QueryResultsRow) (e : DbError) (r : QueryResultsRow)
    → first_row rows ≡ broken e
    → In r rows
    → ⊥
first_row-none [] e r h i = i
first_row-none (x ∷ xs) e r h i = cc

not-true : (b : Bool) → not b ≡ true → b ≡ false
not-true b h = ground arith

not-false : (b : Bool) → b ≡ false → not b ≡ true
not-false b h = ground arith

memory-select_results_only :
    (s : Select) (db : Rows) (rows : List QueryResultsRow) (r : QueryResultsRow)
    → memory.select_results s db ≡ answered rows
    → In r rows
    → In r db.0 × (of_results s.where_ r ≡ true)
memory-select_results_only s db rows r h i = keep-In (of_results s.where_) r db.0 (
    limited-In s.limit r (keep db.0 (of_results s.where_))
      (subst (λ (xs : List QueryResultsRow). In r xs) (sym (answered_injective h)) i))

memory-select_results_limit :
    (s : Select) (db : Rows) (rows : List QueryResultsRow) (n : ℕ)
    → memory.select_results s db ≡ answered rows
    → s.limit ≡ some (pos n)
    → length rows ≤ n
memory-select_results_limit s db rows n h e =
    subst (λ (xs : List QueryResultsRow). length xs ≤ n) (answered_injective h)
      (subst (λ (l : Option ℤ). length (limited l (keep db.0 (of_results s.where_))) ≤ n) (sym e)
        (length-take-le n (keep db.0 (of_results s.where_))))

memory-select_bookmarks_all :
    (s : Select) (db : Rows) (rows : List BookmarksRow) (r : BookmarksRow)
    → memory.select_bookmarks s db ≡ answered rows
    → s.limit ≡ none
    → s.offset ≡ none
    → In r rows ↔ (In r db.1 × (of_bookmarks s.where_ r ≡ true))
memory-select_bookmarks_all s db rows r h no_limit _ =
    let kept = keep db.1 (of_bookmarks s.where_) in
    let all : kept ≡ rows =
      ap (λ (l : Option ℤ). limited l kept) (sym no_limit) ∙ answered_injective h in
    (
      λ i.
          keep-In (of_bookmarks s.where_) r db.1
            (subst (λ (xs : List BookmarksRow). In r xs) (sym all) i),
      λ (i, good).
          subst (λ (xs : List BookmarksRow). In r xs) all
            (In-keep (of_bookmarks s.where_) r db.1 i good),
    )

memory-insert :
    (b r : BookmarksRow) (db db' : Rows) (n : Affected)
    → memory.exec (insert_bookmarks b) db ≡ (answered n, db')
    → In r db'.1 ↔ (In r db.1 ⊎ (r ≡ b))
memory-insert b r db db' n h =
    let after : (b ∷ db.1) ≡ db'.1 = ap (λ (p : Answer Affected × Rows). p.1.1) h in
    subst (λ (xs : List BookmarksRow). In r xs ↔ (In r db.1 ⊎ (r ≡ b))) after
      (
        (λ i. elim i [ inl e ↦ inr (sym e) | inr was ↦ inl was ]),
        λ i. elim i [ inl was ↦ inr was | inr e ↦ inl (sym e) ],
      )

memory-delete :
    (c : Condition) (r : BookmarksRow) (db db' : Rows) (n : Affected)
    → memory.exec (delete_bookmarks c) db ≡ (answered n, db')
    → In r db'.1 ↔ (In r db.1 × (of_bookmarks c r ≡ false))
memory-delete c r db db' n h =
    let after : keep db.1 (not_under c) ≡ db'.1 = ap (λ (p : Answer Affected × Rows). p.1.1) h in
    subst (λ (xs : List BookmarksRow). In r xs ↔ (In r db.1 × (of_bookmarks c r ≡ false))) after
      (
        (λ i. let (was, out) = keep-In (not_under c) r db.1 i in (was, not-true _ out)),
        λ (was, out). In-keep (not_under c) r db.1 was (not-false _ out),
      )

some_of_length : (n : ℕ) (xs : List BookmarksRow) → length xs ≡ suc n → (r : BookmarksRow) × In r xs
some_of_length n [] h = absurd (omega arith)
some_of_length n (x ∷ xs) h = (x, inl refl)

none_of_length : (xs : List BookmarksRow) (r : BookmarksRow) → length xs ≡ 0 → ¬ In r xs
none_of_length [] r h i = i
none_of_length (x ∷ xs) r h i = absurd (omega arith)

affected_injective :
    {a b : ℕ} {db db' : Rows}
    → ◌≡◌ {A = Answer Affected × Rows} (answered (answered a), db) (answered (answered b), db')
    → a ≡ b
affected_injective h =
    answered_injective (answered_injective (ap (λ (p : Answer Affected × Rows). p.0) h))

memory-delete_some :
    (c : Condition) (db db' : Rows) (n : ℕ)
    → memory.exec (delete_bookmarks c) db ≡ (answered (answered (suc n)), db')
    → (r : BookmarksRow) × In r db.1 × (of_bookmarks c r ≡ true)
memory-delete_some c db db' n h =
    let (r, i) = some_of_length n (keep db.1 (of_bookmarks c)) (affected_injective h) in
    let (was, under) = keep-In (of_bookmarks c) r db.1 i in (r, was, under)

memory-delete_none :
    (c : Condition) (db db' : Rows) (r : BookmarksRow)
    → memory.exec (delete_bookmarks c) db ≡ (answered (answered 0), db')
    → In r db.1
    → of_bookmarks c r ≡ false
memory-delete_none c db db' r h i = elim (Bool-cases (of_bookmarks c r)) [
  | inr out ↦ out
  | inl under ↦ absurd (
      none_of_length (keep db.1 (of_bookmarks c)) r (affected_injective h)
        (In-keep (of_bookmarks c) r db.1 i under))
]

memory-broken :
    (st : Statement) (db db' : Rows) (e : DbError) → memory.exec st db ≡ (broken e, db') → db' ≡ db
memory-broken (insert_results r) db db' e h = cc (ap (λ (p : Answer Affected × Rows). p.0) h)
memory-broken (insert_bookmarks b) db db' e h = cc (ap (λ (p : Answer Affected × Rows). p.0) h)
memory-broken (delete_bookmarks c) db db' e h = cc (ap (λ (p : Answer Affected × Rows). p.0) h)

memory-one_none :
    (s : Select) (db : Rows) (e : DbError) (r : QueryResultsRow)
    → memory.select_one s db ≡ broken e
    → e.is_no_rows ≡ true
    → In r db.0
    → of_results s.where_ r ≡ false
memory-one_none s db e r h _ i = elim (Bool-cases (of_results s.where_ r)) [
  | inr out ↦ out
  | inl under ↦ absurd (
      first_row-none (keep db.0 (of_results s.where_)) e r h
        (In-keep (of_results s.where_) r db.0 i under))
]

pub memory_tables : SqlTables memory
memory_tables = record {
  results = λ db. db.0;
  bookmarks = λ db. db.1;
  select_results_only = memory-select_results_only;
  select_results_limit = memory-select_results_limit;
  select_bookmarks_all = memory-select_bookmarks_all;
  select_one_only = λ s db r h.
      keep-In (of_results s.where_) r db.0 (first_row-In (keep db.0 (of_results s.where_)) r h);
  select_one_none = memory-one_none;
  insert_bookmarks_adds = memory-insert;
  delete_bookmarks_takes = memory-delete;
  delete_bookmarks_some = memory-delete_some;
  delete_bookmarks_none = memory-delete_none;
  broken_keeps = memory-broken;
}
