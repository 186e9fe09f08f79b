-- ===== src/Storage/Bookmarks/Laws.antt =====
-- What the operations on bookmarks read and change.
use database_gateway.Common.{
  ◌≡◌, refl, sym, ap, subst, ◌⊎◌, inl, inr, ◌↔◌, ℕ, zero, suc, String, ◌==◌, eq_iff, Bool, true,
  false, ◌&&◌, List, map, In, Some-map, Some-map_inv, Some_witness, Some-of_In, Result, ok, err,
  ok_injective, Error, err_injective, plain, Bool-cases,
}
use database_gateway.Config.{UserId, TargetId}
use database_gateway.App.Effects.{StoredBookmark}
use database_gateway.App.Stored.{is_no_record}
use database_gateway.Storage.Failures.{
  DbError, Answer, answered, broken, Affected, affected_error, handle_error, handled,
}
use database_gateway.Storage.Database.{
  BookmarksRow, Condition, id_eq, user_id_eq, target_id_eq, both, of_bookmarks, delete_bookmarks,
  Database, SqlTables,
}
use database_gateway.Storage.Bookmarks.{
  stored_bookmark, checked, newest, delete_bookmark, list_bookmarks,
}

module _ {ℓ} {D : Type ℓ} where
  -- A statement that is reported as done has affected some rows.
  pub checked-ok :
      (r : Answer Affected × D) (db' : D)
      → checked r ≡ (ok tt, db')
      → (n : ℕ) × (r ≡ (answered (answered (suc n)), db'))
  unfolding checked handle_error affected_error
  checked-ok (broken e, db) db' h = cc
  checked-ok (answered (broken e), db) db' h = cc
  checked-ok (answered (answered zero), db) db' h = cc
  checked-ok (answered (answered (suc n)), db) db' h =
      (n, ap (λ (p : Result (Unit {0}) × D). (answered (answered (suc n)), p.1)) h)

  -- A statement that is reported as having found nothing has failed, or has affected no row.
  pub checked-no_record :
      (r : Answer Affected × D) (db' : D) (e : Error)
      → checked r ≡ (err e, db')
      → is_no_record e.wraps ≡ true
      → ((x : DbError) × (r ≡ (broken x, db'))) ⊎ (r ≡ (answered (answered 0), db'))
  unfolding checked handle_error affected_error
  checked-no_record (broken x, db) db' e h k =
      inl (x, ap (λ (p : Result (Unit {0}) × D). (broken x, p.1)) h)
  checked-no_record (answered (answered zero), db) db' e h k =
      inr (ap (λ (p : Result (Unit {0}) × D). (answered (answered 0), p.1)) h)
  checked-no_record (answered (answered (suc n)), db) db' e h k = cc
  checked-no_record (answered (broken x), db) db' e h k =
      let same : plain x.text ≡ e = err_injective (ap (λ (p : Result (Unit {0}) × D). p.0) h) in
      cc (subst (λ (z : Error). is_no_record z.wraps ≡ true) (sym same) k)

&&-eq-true : (a b : Bool) → (a && b) ≡ true → (a ≡ true) × (b ≡ true)
&&-eq-true true b h = (refl, h)
&&-eq-true false b h = cc

both_iff : (a b c d : String) → ((a == b && c == d) ≡ true) ↔ ((a ≡ b) × (c ≡ d))
both_iff a b c d = (
  λ h. let (p, q) = &&-eq-true (a == b) (c == d) h in ((eq_iff a b).0 p, (eq_iff c d).0 q),
  λ (p, q). rw ((eq_iff a b).1 p, (eq_iff c d).1 q) refl,
)

both_not : (a b c d : String) → ((a == b && c == d) ≡ false) ↔ ¬ ((a ≡ b) × (c ≡ d))
both_not a b c d = (
  λ h k. cc (h, (both_iff a b c d).1 k),
  λ h. elim (Bool-cases (a == b && c == d)) [
    | inl same ↦ absurd (h ((both_iff a b c d).0 same))
    | inr other ↦ other
  ],
)

pub handled-ok {ℓ κ} :
    {A : Type ℓ} {B : Type κ} (a : Answer A) (f : A → B) (b : B)
    → handled a f ≡ ok b
    → (x : A) × (a ≡ answered x) × (f x ≡ b)
unfolding handled
handled-ok (broken e) f b h = cc
handled-ok (answered x) f b h = (x, refl, ok_injective h)

module _ (d : Database) (tables : SqlTables d) where
  -- A bookmark that is the user's and has the identifier.
  abbrev pub IsNamed : UserId → String → BookmarksRow → Type 0
  IsNamed uid bookmark_id r = (r.id ≡ bookmark_id) × (r.user_id ≡ uid)

  abbrev named : UserId → String → Condition
  named uid bookmark_id = both (id_eq bookmark_id) (user_id_eq uid)

  -- A DeleteBookmark that succeeds has found a bookmark of the user with the identifier, and leaves
  -- exactly the other bookmarks, whoever they belong to.
  pub delete_bookmark-takes :
      (uid : UserId) (bookmark_id : String) (db db' : d.Db)
      → delete_bookmark d uid bookmark_id db ≡ (ok tt, db')
      → ((r : BookmarksRow) × In r (tables.bookmarks db) × IsNamed uid bookmark_id r)
        × ((r : BookmarksRow)
            → In r (tables.bookmarks db')
              ↔ (In r (tables.bookmarks db) × ¬ IsNamed uid bookmark_id r))
  unfolding delete_bookmark
  delete_bookmark-takes uid bookmark_id db db' h =
      let c = named uid bookmark_id in
      let (n, done) = checked-ok (d.exec (delete_bookmarks c) db) db' h in
      let (r, was, under) = tables.delete_bookmarks_some c db db' n done in
      (
        (r, was, (both_iff r.id bookmark_id r.user_id uid).0 under),
        λ x.
            let (left, right) = tables.delete_bookmarks_takes c x db db' (answered (suc n)) done in
            let (others, others') = both_not x.id bookmark_id x.user_id uid in
            (
              (λ i. let (was_in, out) = left i in (was_in, others out)),
              λ (was_in, out). right (was_in, others' out),
            ),
      )

  -- A DeleteBookmark that fails with ErrNotFound leaves every bookmark where it was.
  pub delete_bookmark-misses :
      (uid : UserId) (bookmark_id : String) (db db' : d.Db) (e : Error)
      → delete_bookmark d uid bookmark_id db ≡ (err e, db')
      → is_no_record e.wraps ≡ true
      → (r : BookmarksRow) → In r (tables.bookmarks db') ↔ In r (tables.bookmarks db)
  unfolding delete_bookmark
  delete_bookmark-misses uid bookmark_id db db' e h missing r =
      let c = named uid bookmark_id in
      elim (checked-no_record (d.exec (delete_bookmarks c) db) db' e h missing) [
        | inl (x, failed) ↦
            let same = tables.broken_keeps (delete_bookmarks c) db db' x failed in
            subst (λ (z : d.Db). In r (tables.bookmarks z) ↔ In r (tables.bookmarks db)) (sym same)
              ((λ i. i), λ i. i)
        | inr none_ ↦
            let (left, right) = tables.delete_bookmarks_takes c r db db' (answered 0) none_ in
            ((λ i. (left i).0), λ i. right (i, tables.delete_bookmarks_none c db db' r none_ i))
      ]

  -- Given the rows that a list is made of: what is in the list.
  map_iff :
      (c : Condition) (db : d.Db) (rows : List BookmarksRow) (out : List StoredBookmark)
      (b : StoredBookmark)
      → ((r : BookmarksRow) → In r rows ↔ (In r (tables.bookmarks db) × (of_bookmarks c r ≡ true)))
      → map stored_bookmark rows ≡ out
      → In b out ↔ (
          (r : BookmarksRow) × In r (tables.bookmarks db)
          × (of_bookmarks c r ≡ true)
          × (stored_bookmark r ≡ b))
  map_iff c db rows out b all same = (
    (λ i.
        let (r, has, is) =
          Some_witness (λ r. stored_bookmark r ≡ b) rows
            (Some-map_inv (λ x. x ≡ b) stored_bookmark rows
              (subst (λ (xs : List StoredBookmark). In b xs) (sym same) i)) in
        let (was, under) = (all r).0 has in (r, was, under, is)),
    λ (r, was, under, is).
        subst (λ (xs : List StoredBookmark). In b xs) same
          (Some-map (λ x. x ≡ b) stored_bookmark rows
            (Some-of_In (λ x. stored_bookmark x ≡ b) rows r ((all r).1 (was, under)) is)),
  )

  -- ListBookmarks lists exactly the bookmarks of the user for the target.
  pub list_bookmarks_iff :
      (uid : UserId) (target_id : TargetId) (db : d.Db) (out : List StoredBookmark)
      (b : StoredBookmark)
      → list_bookmarks d uid target_id db ≡ ok out
      → In b out ↔ (
          (r : BookmarksRow) × In r (tables.bookmarks db)
          × (stored_bookmark r ≡ b)
          × (r.user_id ≡ uid)
          × (r.target_id ≡ target_id))
  unfolding list_bookmarks
  list_bookmarks_iff uid target_id db out b h =
      let c = both (user_id_eq uid) (target_id_eq target_id) in
      let (rows, read, same) =
        handled-ok (d.select_bookmarks (newest d c) db) (map stored_bookmark) out h in
      let (left, right) =
        map_iff c db rows out b
          (λ r. tables.select_bookmarks_all (newest d c) db rows r read refl refl) same in
      (
        (λ i.
            let (r, was, under, is) = left i in
            let (own, here) = (both_iff r.user_id uid r.target_id target_id).0 under in
            (r, was, is, own, here)),
        λ (r, was, is, own, here).
            right (r, was, (both_iff r.user_id uid r.target_id target_id).1 (own, here), is),
      )
