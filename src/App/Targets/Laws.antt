-- ===== src/App/Targets/Laws.antt =====
-- Which targets a user reaches.
use database_gateway.Common.{
  ◌≡◌, subst, refl, ◌∙◌, ap, ◌↔◌, inl, inr, String, Bool, true, ◌==◌, eq_iff, List, [], ◌∷◌, map,
}
use database_gateway.Common.{
  In, Some, Some-map, Some-map_inv, Some-map_to, ok, err, >>=-eq-ok, ok_injective, Sentinel, Error,
  Bool-cases, Result-cases, wrapping,
}
use database_gateway.Common.Just.{Just, keep}
use database_gateway.Config.{Target, TargetId}
use database_gateway.Policy.{Authorizer}
use database_gateway.Validator.Schema.{DbSchema}
use database_gateway.App.Users.{User, user_subjects}
use database_gateway.App.Targets.{
  Server, new_db_schema, find_target, get_target_by_id, adapt_target, get_targets, get_server_by_id,
}

module _ (authorizer : Authorizer) where
  -- The target has the identifier, and the subjects may use it.
  abbrev pub IsVisible : List String → TargetId → Target → Type 0
  IsVisible subjects t_id t = (t.id ≡ t_id) × (authorizer.allow_target subjects t.id ≡ true)

  -- What a search that finds something has found.
  abbrev pub IsFound : List String → TargetId → List Target → Target × DbSchema → Type 0
  IsFound subjects t_id targets (target, schema) =
      In target targets
      × IsVisible subjects t_id target
      × (schema ≡ new_db_schema target.default_schema target.tables)

  find_target-IsFound :
      (subjects : List String) (t_id : TargetId) (targets : List Target) (r : Target × DbSchema)
      → find_target authorizer subjects t_id targets ≡ ok r
      → IsFound subjects t_id targets r
  unfolding find_target
  find_target-IsFound subjects t_id [] r h = cc
  find_target-IsFound subjects t_id (t ∷ ts) r h = elim (Bool-cases (t.id == t_id)) [
    | inl same ↦ elim (Bool-cases (authorizer.allow_target subjects t.id)) [
      | inl allowed ↦
          let own : IsFound subjects t_id (t ∷ ts) (t, new_db_schema t.default_schema t.tables) =
            (inl refl, ((eq_iff t.id t_id).0 same, allowed), refl) in
          subst (IsFound subjects t_id (t ∷ ts)) (ok_injective (rw (same, allowed) at h)) own
      | inr denied ↦
          let (i, v, e) = find_target-IsFound subjects t_id ts r (rw (same, denied) at h) in
          (inr i, v, e)
    ]
    | inr other ↦
        let (i, v, e) = find_target-IsFound subjects t_id ts r (rw other at h) in (inr i, v, e)
  ]

  find_target-Some :
      (subjects : List String) (t_id : TargetId) (targets : List Target)
      → Some (IsVisible subjects t_id) targets
      → (r : Target × DbSchema) × (find_target authorizer subjects t_id targets ≡ ok r)
  unfolding find_target
  find_target-Some subjects t_id [] h = elim h [ ]
  find_target-Some subjects t_id (t ∷ ts) (inl (same, allowed)) =
      ((t, new_db_schema t.default_schema t.tables), rw ((eq_iff t.id t_id).1 same, allowed) refl)
  find_target-Some subjects t_id (t ∷ ts) (inr h) =
      let (r, e) = find_target-Some subjects t_id ts h in
      elim (Bool-cases (t.id == t_id)) [
        | inl same ↦ elim (Bool-cases (authorizer.allow_target subjects t.id)) [
          | inl allowed ↦ ((t, new_db_schema t.default_schema t.tables), rw (same, allowed) refl)
          | inr denied ↦ (r, rw (same, denied) e)
        ]
        | inr other ↦ (r, rw other e)
      ]

  find_target-err :
      (subjects : List String) (t_id : TargetId) (targets : List Target) (e : Error)
      → find_target authorizer subjects t_id targets ≡ err e
      → e ≡ wrapping Sentinel.not_found "target not found"
  unfolding find_target
  find_target-err subjects t_id [] e h = cc
  find_target-err subjects t_id (t ∷ ts) e h = elim (Bool-cases (t.id == t_id)) [
    | inl same ↦ elim (Bool-cases (authorizer.allow_target subjects t.id)) [
      | inl allowed ↦ cc (rw (same, allowed) at h)
      | inr denied ↦ find_target-err subjects t_id ts e (rw (same, denied) at h)
    ]
    | inr other ↦ find_target-err subjects t_id ts e (rw other at h)
  ]

  -- getTargetByID gives a configured target that has the identifier and that the policy allows to
  -- the user's subjects, with the schema of that target.
  pub get_target_by_id-IsFound :
      (targets : List Target) (user : User) (t_id : TargetId) (r : Target × DbSchema)
      → get_target_by_id authorizer targets user t_id ≡ ok r
      → IsFound (user_subjects user) t_id targets r
  unfolding get_target_by_id
  get_target_by_id-IsFound targets user t_id r h =
      find_target-IsFound (user_subjects user) t_id targets r h

  -- getTargetByID refuses with ErrNotFound alone, and exactly when no configured target has the
  -- identifier and is allowed to the user: what exists but is not allowed looks like what does not
  -- exist.
  pub get_target_by_id-refuses :
      (targets : List Target) (user : User) (t_id : TargetId)
      → (get_target_by_id authorizer targets user t_id
          ≡ err (wrapping Sentinel.not_found "target not found"))
        ↔ ¬ Some (IsVisible (user_subjects user) t_id) targets
  unfolding get_target_by_id
  get_target_by_id-refuses targets user t_id = (
    (λ h some. let (r, e) = find_target-Some (user_subjects user) t_id targets some in cc),
    (λ none. elim (Result-cases (find_target authorizer (user_subjects user) t_id targets)) [
      | inl (r, e) ↦
          let (i, visible, _) = find_target-IsFound (user_subjects user) t_id targets r e in
          absurd (none (Some-map_to (λ t same. rw (← same) at visible) targets i))
      | inr (d, e) ↦ rw (find_target-err (user_subjects user) t_id targets d e) at e
    ]),
  )

keep-Some :
    (p : Target → Bool) (P : Target → Type 0) (ts : List Target)
    → Some P (keep ts p) ↔ Some (λ t. P t × (p t ≡ true)) ts
keep-Some p P [] = ((λ h. elim h [ ]), (λ h. elim h [ ]))
keep-Some p P (t ∷ ts) = elim (Bool-cases (p t)) [
  | inl kept ↦ rw kept (
    (λ h. elim h [ inl q ↦ inl (q, refl) | inr k ↦ inr ((keep-Some p P ts).0 k) ]),
    (λ h. elim h [ inl (q, _) ↦ inl q | inr k ↦ inr ((keep-Some p P ts).1 k) ]),
  )
  | inr dropped ↦ rw dropped (
    (λ h. inr ((keep-Some p P ts).0 h)),
    (λ h. elim h [ inl (_, k) ↦ cc | inr k ↦ (keep-Some p P ts).1 k ]),
  )
]

-- GetTargets lists a server with an identifier exactly when GetTargetByID finds one under it: the
-- list and the search show a user the same targets.
pub get_targets_iff :
    (just : Just) (authorizer : Authorizer) (targets : List Target) (user : User) (t_id : TargetId)
    → Some (λ s. s.id ≡ t_id) (get_targets just authorizer targets user)
      ↔ ((server : Server) × (get_server_by_id just authorizer targets user t_id ≡ ok server))
unfolding get_targets get_server_by_id adapt_target get_target_by_id
get_targets_iff just authorizer targets user t_id = (to, from)
  where
    subjects : List String
    subjects = user_subjects user

    allowed : Target → Bool
    allowed t = authorizer.allow_target (user_subjects user) t.id

    listed :
        get_targets just authorizer targets user ≡ map (adapt_target just) (keep targets allowed)
    listed =
        just.slice_map_map Target Server _ (adapt_target just)
        ∙ ap (map (adapt_target just)) (just.slice_filter_keep Target targets allowed)

    to :
        Some (λ s. s.id ≡ t_id) (get_targets just authorizer targets user)
        → (server : Server) × (get_server_by_id just authorizer targets user t_id ≡ ok server)
    to h =
        let k =
          Some-map_inv (λ s. s.id ≡ t_id) (adapt_target just) (keep targets allowed)
            (rw listed at h) in
        let (r, e) =
          find_target-Some authorizer subjects t_id targets
            ((keep-Some allowed (λ t. t.id ≡ t_id) targets).0 k) in
        (adapt_target just r.0, rw e refl)

    from :
        ((server : Server) × (get_server_by_id just authorizer targets user t_id ≡ ok server))
        → Some (λ s. s.id ≡ t_id) (get_targets just authorizer targets user)
    from (server, h) =
        let (r, e, _) = >>=-eq-ok (find_target authorizer subjects t_id targets) _ h in
        let (i, visible, _) = find_target-IsFound authorizer subjects t_id targets r e in
        let k : Some (IsVisible authorizer subjects t_id) targets =
          Some-map_to (λ t same. rw (← same) at visible) targets i in
        rw listed (
          Some-map (λ s. s.id ≡ t_id) (adapt_target just) (keep targets allowed)
            ((keep-Some allowed (λ t. t.id ≡ t_id) targets).1 k))
