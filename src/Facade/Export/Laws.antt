-- ===== src/Facade/Export/Laws.antt =====
-- Who may download stored results.
use database_gateway.Common.{
  ◌≡◌, refl, sym, ap, ◌∙◌, inl, inr, String, true, List, not, ◌||◌, ◌==◌, eq_iff, Option, none,
  some, ok, err, >>=-eq-ok, >>-eq-ok, reject_if, reject_if-eq-ok, Result-cases, Bool-cases,
  not-eq-false, ok_injective, Error,
}
use database_gateway.Common.Text.{leb}
use database_gateway.App.Users.{User}
use database_gateway.App.Effects.{Outside, Event, StoredResult}
use database_gateway.App.Stored.{QueryResults, get_query_results}
use database_gateway.App.Stored.Laws.{IsReader, get_query_results-IsReader}
use database_gateway.Facade.Export.{
  ExportClaims, Surroundings, served, panicked, is_not_found, is_forbidden, token_parts,
  is_supported_export_format, parse_export_token, current_export_user, lookup_export, serve_export,
  download_for, download_query_results_export,
}

module _ (s : Surroundings) where
  -- The token carries the claims under the service's signature, for a format that is supported, and
  -- has not expired.
  abbrev pub IsSigned : String → ExportClaims → Type 0
  IsSigned raw_token claims =
      (payload_part : String) × (sig_part : String) × (payload : s.Bytes) × (token_parts raw_token
        ≡ ok (payload_part, sig_part))
      × (s.decode payload_part ≡ ok payload)
      × (s.decode sig_part ≡ ok (s.sign payload))
      × (s.unmarshal payload ≡ ok claims)
      × (is_supported_export_format claims.format ≡ true)
      × (leb s.now claims.expires_at ≡ true)

  parse_export_token-IsSigned :
      (raw_token : String) (claims : ExportClaims)
      → parse_export_token s raw_token ≡ ok claims
      → IsSigned raw_token claims
  unfolding parse_export_token
  parse_export_token-IsSigned raw_token claims h =
      let (parts, e1, h1) = >>=-eq-ok (token_parts raw_token) _ h in
      let (payload, e2, h2) = >>=-eq-ok (s.decode parts.0) _ h1 in
      let (got, e3, h3) = >>=-eq-ok (s.decode parts.1) _ h2 in
      let (e4, h4) = >>-eq-ok (reject_if (not (s.equal got (s.sign payload))) _) _ h3 in
      let (read, e5, h5) = >>=-eq-ok (s.unmarshal payload) _ h4 in
      let (e6, h6) = >>-eq-ok (reject_if (not (is_supported_export_format read.format)) _) _ h5 in
      let (e7, h7) = >>-eq-ok (reject_if (not (leb s.now read.expires_at)) _) _ h6 in
      let same : read ≡ claims = ok_injective h7 in
      let genuine : s.equal got (s.sign payload) ≡ true = not-eq-false _ (reject_if-eq-ok _ _ e4) in
      (
        parts.0,
        parts.1,
        payload,
        e1,
        e2,
        e3 ∙ ap ok ((s.equal_iff got (s.sign payload)).0 genuine),
        e5 ∙ ap ok same,
        rw same at (not-eq-false _ (reject_if-eq-ok _ _ e6)),
        rw same at (not-eq-false _ (reject_if-eq-ok _ _ e7)),
      )

  lookup_export-some :
      (user : User) (id : String) (q : QueryResults)
      → lookup_export s user id ≡ ok (some q)
      → s.get_query_results user id ≡ ok q
  unfolding lookup_export
  lookup_export-some user id q h = elim (Result-cases (s.get_query_results user id)) [
    | inl (r, found) ↦ found ∙ cc (rw (found, lookup_export) at h)
    | inr (e, lost) ↦ elim (Bool-cases (is_not_found e.wraps || is_forbidden e.wraps)) [
      | inl known ↦ cc (rw (lost, known, lookup_export) at h)
      | inr other ↦ cc (rw (lost, other, lookup_export) at h)
    ]
  ]

  serve_export-served :
      (format f : String) (o : Option QueryResults) (q : QueryResults)
      → serve_export s format o ≡ served f q
      → (o ≡ some q) × (format ≡ f)
  unfolding serve_export
  serve_export-served format f none q h = elim (Bool-cases (is_supported_export_format format)) [
    | inl known ↦ cc (rw (known, serve_export) at h)
    | inr other ↦ cc (rw (other, serve_export) at h)
  ]
  serve_export-served format f (some r) q h =
      elim (Bool-cases (is_supported_export_format format)) [
        | inl known ↦
            let h1 : served format r ≡ served f q = rw (known, serve_export) at h in
            (cc (h1), cc (h1))
        | inr other ↦ cc (rw (other, serve_export) at h)
      ]

  -- What is served is a result that GetQueryResults gives the user, in the format of the claims.
  abbrev pub IsGranted : User → ExportClaims → String → QueryResults → Type 0
  IsGranted user claims format q =
      (claims.user_id ≡ user.id)
      × (s.get_query_results user claims.query_result_id ≡ ok q)
      × (format ≡ claims.format)

  download_for-IsGranted :
      (user : User) (claims : ExportClaims) (format : String) (q : QueryResults)
      → download_for s user claims ≡ served format q
      → IsGranted user claims format q
  unfolding download_for
  download_for-IsGranted user claims format q h = elim (Bool-cases (claims.user_id == user.id)) [
    | inr other ↦ cc (rw (other, download_for) at h)
    | inl own ↦ elim (Result-cases (lookup_export s user claims.query_result_id)) [
      | inr (e, lost) ↦ cc (rw (own, lost, download_for) at h)
      | inl (o, found) ↦
          let (has, same) =
            serve_export-served claims.format format o q (rw (own, found, download_for) at h) in
          (
            (eq_iff claims.user_id user.id).0 own,
            lookup_export-some user claims.query_result_id q (found ∙ ap ok has),
            sym same,
          )
    ]
  ]

  granted :
      (auth_header raw_token format : String) (q : QueryResults)
      → download_query_results_export s auth_header raw_token ≡ served format q
      → (user : User) × (claims : ExportClaims) × (current_export_user s auth_header ≡ ok user)
        × (parse_export_token s raw_token ≡ ok claims)
        × IsGranted user claims format q
  unfolding download_query_results_export
  granted auth_header raw_token format q h =
      elim (Result-cases (current_export_user s auth_header)) [
        | inr (e, stranger) ↦ cc (rw (stranger, download_query_results_export) at h)
        | inl (user, known) ↦ elim (Result-cases (parse_export_token s raw_token)) [
          | inr (e, bad) ↦ cc (rw (known, bad, download_query_results_export) at h)
          | inl (claims, parsed) ↦ (
            user,
            claims,
            known,
            parsed,
            download_for-IsGranted user claims format q
                (rw (known, parsed, download_query_results_export) at h),
          )
        ]
      ]

  -- A download serves results only to a user who is signed in, with a token that carries the claims
  -- under the service's signature and has not expired; the claims name the user, and the results
  -- are those that GetQueryResults gives this user under the identifier of the claims, in their
  -- format.
  pub download-IsGranted :
      (auth_header raw_token format : String) (q : QueryResults)
      → download_query_results_export s auth_header raw_token ≡ served format q
      → (user : User) × (claims : ExportClaims) × (current_export_user s auth_header ≡ ok user)
        × IsSigned raw_token claims
        × IsGranted user claims format q
  download-IsGranted auth_header raw_token format q h =
      let (user, claims, known, parsed, grant) = granted auth_header raw_token format q h in
      (user, claims, known, parse_export_token-IsSigned raw_token claims parsed, grant)

  -- A download panics, once the user and the token are accepted, if GetQueryResults answers
  -- ErrNotFound: the handler goes on with a nil pointer after the status 404 is written.
  pub download_panics :
      (auth_header raw_token : String) (user : User) (claims : ExportClaims) (e : Error)
      → current_export_user s auth_header ≡ ok user
      → parse_export_token s raw_token ≡ ok claims
      → claims.user_id ≡ user.id
      → s.get_query_results user claims.query_result_id ≡ err e
      → is_not_found e.wraps ≡ true
      → download_query_results_export s auth_header raw_token ≡ panicked
  unfolding download_query_results_export download_for lookup_export serve_export
  download_panics auth_header raw_token user claims e known parsed own lost missing =
      let (_, _, _, _, _, _, _, supported, _) =
        parse_export_token-IsSigned raw_token claims parsed in
      rw (known, parsed, download_query_results_export)
        (rw ((eq_iff claims.user_id user.id).1 own, download_for)
          (rw (lost, missing, lookup_export) (rw (supported, serve_export) refl)))

  -- If the service's results are those of GetQueryResults, a download serves a user who is signed in
  -- only a result that is stored under the identifier of the token's claims, with its own owner and
  -- query, and only if the user is an admin or the owner.
  pub download-IsReader :
      (outside : Outside) (log : List Event)
      → ((user : User) (id : String)
          → s.get_query_results user id ≡ get_query_results outside log user id)
      → (auth_header raw_token format : String) (q : QueryResults)
      → download_query_results_export s auth_header raw_token ≡ served format q
      → (user : User) × (claims : ExportClaims) × (res : StoredResult) × (current_export_user s
            auth_header
          ≡ ok user)
        × (parse_export_token s raw_token ≡ ok claims)
        × (outside.get_query_results_by_id log claims.query_result_id ≡ ok res)
        × IsReader user res.user_id
        × (q.user_id ≡ res.user_id)
        × (q.query ≡ res.query)
  download-IsReader outside log service auth_header raw_token format q h =
      let (user, claims, known, parsed, (_, found, _)) = granted auth_header raw_token format q h in
      let (reads, res, stored, _, owner, query) =
        get_query_results-IsReader outside log user claims.query_result_id q
          (sym (service user claims.query_result_id) ∙ found) in
      (user, claims, res, known, parsed, stored, rw owner at reads, owner, query)
