-- ===== src/Facade/Api/Results/Links.antt =====
-- What the links are worth that a call hands out.
use database_gateway.Common.{
  ◌≡◌, refl, sym, ap, ◌∙◌, ℕ, ◌+◌, String, ◌<>◌, true, not, some, ok, reject_if, reject_if-eq-ok,
  not-eq-false, ok_injective,
}
use text.Mathlib.TextPositions.{eq_refl}
use database_gateway.Common.Text.{leb, trim_space}
use database_gateway.App.Users.{User}
use database_gateway.Common.{List}
use database_gateway.App.Effects.{Event, World, Outside, reading, pure_step}
use database_gateway.App.Effects.Laws.{run-eq-ok}
use database_gateway.App.Queries.Audit.{pure-ok}
use database_gateway.App.Stored.{QueryResults, get_query_results}
use database_gateway.Facade.Export.{
  ExportClaims, Surroundings, served, is_supported_export_format, build_export_token,
  parse_export_token, current_export_user, lookup_export, serve_export, download_for,
  download_query_results_export,
}
use database_gateway.Facade.Export.Roundtrip.{IsFaithful, at_time, parse-build}
use database_gateway.Facade.Api.Caller.{parse_id, parse_id-eq-ok}
use database_gateway.Facade.Api.Results.{Libraries, ExportLinkReq, ExportLinkResp, export_link}

-- A download by a user with a token that is read as claims of the user about a result that the
-- service has.
module _ (s : Surroundings) where
  downloads :
      (auth_header token : String) (user : User) (claims : ExportClaims) (q : QueryResults)
      → current_export_user s auth_header ≡ ok user
      → parse_export_token s token ≡ ok claims
      → claims.user_id ≡ user.id
      → is_supported_export_format claims.format ≡ true
      → s.get_query_results user claims.query_result_id ≡ ok q
      → download_query_results_export s auth_header token ≡ served claims.format q
  unfolding download_query_results_export download_for lookup_export serve_export
  downloads auth_header token user claims q known parsed own supported has =
      rw (known, parsed, download_query_results_export)
        (rw (own, eq_refl user.id, download_for)
          (rw (has, lookup_export) (rw (supported, serve_export) refl)))

-- The surroundings at a later time, whose results are those that the service has then.
abbrev pub later : Outside → Surroundings → ℕ → List Event → Surroundings
later outside s now log = record (at_time s now) {
  get_query_results = get_query_results outside log;
}

later-parse :
    (outside : Outside) (s : Surroundings) (now : ℕ) (log : List Event) (token : String)
    → parse_export_token (later outside s now log) token ≡ parse_export_token (at_time s now) token
unfolding parse_export_token
later-parse outside s now log token = refl

module _ (outside : Outside) (lib : Libraries) (s : Surroundings) (faithful : IsFaithful s) where
  -- What a call that hands out a link has found out.
  abbrev IsLinked : User → ExportLinkReq → World → ExportLinkResp → Type 0
  IsLinked user req w resp =
      (id : String) × (q : QueryResults) × (token : String) × (lib.parse_ulid
          (trim_space req.query_result_id)
        ≡ ok id)
      × (is_supported_export_format (trim_space req.format) ≡ true)
      × (get_query_results outside w.log user id ≡ ok q)
      × (build_export_token s user.id id (trim_space req.format) (s.now + 3) ≡ ok token)
      × (resp.url ≡ "/api/v1/query-results/export/" <> token)

  export_link-IsLinked :
      (user : User) (req : ExportLinkReq) (w w' : World) (resp : ExportLinkResp)
      → export_link outside lib (some user) s req w ≡ (ok resp, w')
      → IsLinked user req w resp
  unfolding export_link
  export_link-IsLinked user req w w' resp h =
      let format = trim_space req.format in
      let (id, w1, e1, h1) =
        run-eq-ok
          (pure_step
            (parse_id lib.parse_ulid "bad query result id" (trim_space req.query_result_id)))
          _ w h in
      let (parsed, same1) = pure-ok _ w w1 id e1 in
      let (_, w2, e2, h2) =
        run-eq-ok (pure_step (reject_if (not (is_supported_export_format format)) _)) _ w1 h1 in
      let (checked, same2) = pure-ok _ w1 w2 tt e2 in
      let (q, w3, e3, h3) =
        run-eq-ok (reading (λ log. get_query_results outside log user id)) _ w2 h2 in
      let (token, w4, e4, h4) =
        run-eq-ok (pure_step (build_export_token s user.id id format (s.now + 3))) _ w3 h3 in
      let (built, _) = pure-ok _ w3 w4 token e4 in
      (
        id,
        q,
        token,
        parse_id-eq-ok lib.parse_ulid _ _ id parsed,
        not-eq-false _ (reject_if-eq-ok _ _ checked),
        ap (λ (v : World). get_query_results outside v.log user id) (sym (same2 ∙ same1))
            ∙ ap (λ p. p.0) e3,
        built,
        sym (ap (λ r. r.url) (ok_injective (ap (λ p. p.0) h4))),
      )

  -- A link that a call hands out to a user opens the results until three seconds on, the seconds
  -- counted as `Unix` does: whatever was called in between, a download with the token of the link by
  -- the same user is answered with what GetQueryResults gives the user for the identifier of the
  -- request, in the format of the request.
  pub export_link-works :
      (user : User) (req : ExportLinkReq) (w w' : World) (resp : ExportLinkResp)
      → export_link outside lib (some user) s req w ≡ (ok resp, w')
      → (id : String) × (token : String) × (lib.parse_ulid (trim_space req.query_result_id) ≡ ok id)
        × (resp.url ≡ "/api/v1/query-results/export/" <> token)
        × ((auth_header : String) (now : ℕ) (log : List Event) (q : QueryResults)
            → current_export_user (later outside s now log) auth_header ≡ ok user
            → leb now (s.now + 3) ≡ true
            → get_query_results outside log user id ≡ ok q
            → download_query_results_export (later outside s now log) auth_header token
              ≡ served (trim_space req.format) q)
  export_link-works user req w w' resp h =
      let (id, _, token, parsed, supported, _, built, url) =
        export_link-IsLinked user req w w' resp h in
      (
        id,
        token,
        parsed,
        url,
        λ auth_header now log q known fresh has.
            let (nonce, read) =
              parse-build s faithful user.id id (trim_space req.format) (s.now + 3) token now built
                supported fresh in
            downloads (later outside s now log) auth_header token user _ q known
              (later-parse outside s now log token ∙ read) refl supported has,
      )
