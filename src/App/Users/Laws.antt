-- ===== src/App/Users/Laws.antt =====
-- Who is let in, and with which role.
use database_gateway.Common.{
  ℕ, subst, ◌≡◌, refl, ◌∙◌, sym, ap, ◌↔◌, ◌⊎◌, inl, inr, String, true, false, not, ◌||◌, ◌==◌,
  eq_iff, none, some, List, [], ◌∷◌, ◌++◌,
}
use database_gateway.Common.{
  arith, All, Some-All, Map, lookup, lookup-Some, Result, ok, >>=-eq-ok, >>-eq-ok, reject_if-eq-ok,
  ok_injective, Option-cases, reject_if, if◌then◌else◌, Bool-cases,
}
use database_gateway.Common.Just.{Just}
use database_gateway.Common.Text.{is_empty, trim_space}
use database_gateway.Config.{Role, UsersProviderOidc, Config, validate, is_valid_role}
use database_gateway.Config.Laws.{validate_iff}
use database_gateway.App.Users.{
  User, Claims, IdToken, Token, OidcTokens, RawClaim, first_role, get_claim_values,
  resolve_user_role, raw_id_token, oidc_user, access_user, complete_oidc, auth_by_access_token,
}

-- The first value of a claim that the mapping has.
abbrev pub IsFirstMapped : List String → Map Role → Role → Type 0
IsFirstMapped values m role =
    (before : List String) × (value : String) × (after : List String) × (values
      ≡ before ++ (value ∷ after))
    × All (λ v. lookup v m ≡ none) before
    × (lookup value m ≡ some role)

first_role-IsFirstMapped :
    (values : List String) (m : Map Role) (role : Role)
    → first_role values m ≡ ok role
    → IsFirstMapped values m role
unfolding first_role
first_role-IsFirstMapped [] m role h = cc
first_role-IsFirstMapped (v ∷ vs) m role h = elim (Option-cases (lookup v m)) [
  | inl unmapped ↦
      let (before, value, after, e, all, found) =
        first_role-IsFirstMapped vs m role (rw (unmapped, first_role) at h) in
      (v ∷ before, value, after, ap (λ ws. v ∷ ws) e, (unmapped, all), found)
  | inr (r, found) ↦
      ([], v, vs, refl, tt, found ∙ ap some (ok_injective (rw (found, first_role) at h)))
]

first_role-found :
    (before : List String) (value : String) (after : List String) (m : Map Role) (role : Role)
    → All (λ v. lookup v m ≡ none) before
    → lookup value m ≡ some role
    → first_role (before ++ (value ∷ after)) m ≡ ok role
unfolding first_role
first_role-found [] value after m role _ found = rw (found, first_role)
first_role-found (v ∷ before) value after m role (unmapped, all) found =
    rw (unmapped, first_role) (first_role-found before value after m role all found)

get_claim_values-eq-ok :
    (claims : Map RawClaim) (name : String) (values : List String)
    → (get_claim_values claims name ≡ ok values) ↔ (lookup name claims ≡ some (some values))
unfolding get_claim_values
get_claim_values-eq-ok claims name values = elim (Option-cases (lookup name claims)) [
  | inl e ↦ rw (e, get_claim_values) ((λ h. cc), (λ h. cc))
  | inr (none, e) ↦ rw (e, get_claim_values) ((λ h. cc), (λ h. cc))
  | inr (some vs, e) ↦ rw (e, get_claim_values) ((λ h. cc), (λ h. cc))
]

-- resolveUserRole gives a role exactly when the claim is there and is a list of texts, and the role
-- is that of the first value of the list that the role mapping has.
pub resolve_user_role_iff :
    (claims : Map RawClaim) (name : String) (m : Map Role) (role : Role)
    → (resolve_user_role claims name m ≡ ok role) ↔ (
        (values : List String) × (lookup name claims ≡ some (some values))
        × IsFirstMapped values m role)
unfolding resolve_user_role
resolve_user_role_iff claims name m role = (
  (λ h.
      let (values, e, k) = >>=-eq-ok (get_claim_values claims name) _ h in
      (
        values,
        (get_claim_values-eq-ok claims name values).0 e,
        first_role-IsFirstMapped values m role k,
      )),
  (λ (values, e, (before, value, after, same, all, found)).
      rw ((get_claim_values-eq-ok claims name values).1 e, same)
        (first_role-found before value after m role all found)),
)

mapped-IsValid :
    (m : Map Role) (value : String) (role : Role)
    → All (λ (attr, r). is_valid_role r ≡ true) m
    → lookup value m ≡ some role
    → is_valid_role role ≡ true
mapped-IsValid m value role valid found =
    let (e, (_, same), good) =
      Some-All (λ (j, w). (j ≡ value) × (w ≡ role)) (λ (attr, r). is_valid_role r ≡ true) m
        (lookup-Some value role m found) valid in
    rw same at good

-- Under a configuration that passes Validate, the role that is resolved is `admin` or `user`.
role-IsValid :
    (c : Config) (claims : Map RawClaim) (role : Role)
    → validate c ≡ ok tt
    → resolve_user_role claims c.users.role_claim c.users.role_mapping ≡ ok role
    → is_valid_role role ≡ true
role-IsValid c claims role valid h =
    let m = c.users.role_mapping in
    let (_, _, (_, value, _, _, _, found)) =
      (resolve_user_role_iff claims c.users.role_claim m role).0 h in
    mapped-IsValid m value role ((validate_iff c).0 valid).roles found

raw_id_token-eq-ok :
    (token : Token) (raw : String) → raw_id_token token ≡ ok raw → token.id_token ≡ some raw
unfolding raw_id_token
raw_id_token-eq-ok token raw h = elim (Option-cases token.id_token) [
  | inl e ↦ cc (rw (e, raw_id_token) at h)
  | inr (r, e) ↦ e ∙ ap some (ok_injective (rw (e, raw_id_token) at h))
]

-- What a user must be whom a token lets in.
abbrev pub IsAuthenticated : UsersProviderOidc → IdToken → User → Type 0
IsAuthenticated users t user =
    (claims : Claims) × (raw : Map RawClaim) × (t.claims ≡ ok claims)
    × (t.raw_claims ≡ ok raw)
    × ((user.id ≡ claims.email) ⊎ (user.id ≡ claims.subject))
    × (is_empty user.id ≡ false)
    × (resolve_user_role raw users.role_claim users.role_mapping ≡ ok user.role)

module _ (just : Just) (users : UsersProviderOidc) where
  oidc_user-IsAuthenticated :
      (t : IdToken) (user : User) → oidc_user just users t ≡ ok user → IsAuthenticated users t user
  unfolding oidc_user
  oidc_user-IsAuthenticated t user h =
      let (claims, e1, h1) = >>=-eq-ok t.claims _ h in
      let (e2, h2) = >>-eq-ok (reject_if (is_empty claims.email) _) _ h1 in
      let (raw, e3, h3) = >>=-eq-ok t.raw_claims _ h2 in
      let (role, e4, h4) =
        >>=-eq-ok (resolve_user_role raw users.role_claim users.role_mapping) _ h3 in
      let same : _ ≡ user = ok_injective h4 in
      let own : claims.email ≡ user.id = ap (λ u. u.id) same in
      (
        claims,
        raw,
        e1,
        e3,
        inl (sym own),
        rw own at (reject_if-eq-ok _ _ e2),
        e4 ∙ ap (λ u. ok u.role) same,
      )

  access_user-IsAuthenticated :
      (t : IdToken) (user : User)
      → access_user just users t ≡ ok user
      → IsAuthenticated users t user
  unfolding access_user
  access_user-IsAuthenticated t user h =
      let (claims, e1, h1) = >>=-eq-ok t.claims _ h in
      let (raw, e3, h3) = >>=-eq-ok t.raw_claims _ h1 in
      let (role, e4, h4) =
        >>=-eq-ok (resolve_user_role raw users.role_claim users.role_mapping) _ h3 in
      let user_id = if is_empty claims.email then claims.subject else claims.email in
      let (e2, h5) = >>-eq-ok (reject_if (is_empty user_id) _) _ h4 in
      let same : _ ≡ user = ok_injective h5 in
      let own : user_id ≡ user.id = ap (λ u. u.id) same in
      (
        claims,
        raw,
        e1,
        e3,
        elim (Bool-cases (is_empty claims.email)) [
          | inl without ↦ inr (rw without at (sym own))
          | inr has ↦ inl (rw has at (sym own))
        ],
        rw own at (reject_if-eq-ok _ _ e2),
        e4 ∙ ap (λ u. ok u.role) same,
      )

  -- CompleteOIDC lets a user in only if the expected state is not empty and equals the received
  -- one, the code has been exchanged for a token with an id token that is verified, and the user
  -- is the email or the subject of its claims, not empty, with the role that its claims resolve to.
  pub complete_oidc-IsAuthenticated :
      (verify : String → Result IdToken) (exchange : String → Result Token) (now : ℕ)
      (code expected received : String) (user : User) (expiry : ℕ) (tokens : OidcTokens)
      → complete_oidc just users verify exchange now code expected received
        ≡ ok (user, expiry, tokens)
      → (expected ≡ received)
        × (is_empty expected ≡ false)
        × (token : Token) × (t : IdToken) × (exchange code ≡ ok token)
        × (token.id_token ≡ some tokens.id_token)
        × (verify tokens.id_token ≡ ok t)
        × IsAuthenticated users t user
  unfolding complete_oidc
  complete_oidc-IsAuthenticated verify exchange now code expected received user expiry tokens h =
      let (e0, h0) = >>-eq-ok (reject_if (not (expected == received) || is_empty expected) _) _ h in
      let (token, e1, h1) = >>=-eq-ok (exchange code) _ h0 in
      let (raw, e2, h2) = >>=-eq-ok (raw_id_token token) _ h1 in
      let (t, e3, h3) = >>=-eq-ok (verify raw) _ h2 in
      let (u, e4, h4) = >>=-eq-ok (oidc_user just users t) _ h3 in
      let (e5, h5) = >>-eq-ok (reject_if (is_empty (trim_space token.access_token)) _) _ h4 in
      let same : _ ≡ (user, expiry, tokens) = ok_injective h5 in
      let guard = reject_if-eq-ok _ _ e0 in
      let own : raw ≡ tokens.id_token = ap (λ r. r.2.id_token) same in
      (
        ground (arith, guard, eq_iff expected received),
        ground (arith, guard),
        token,
        t,
        e1,
        raw_id_token-eq-ok token raw e2 ∙ ap some own,
        rw own at e3,
        subst (IsAuthenticated users t) (ap (λ r. r.0) same) (oidc_user-IsAuthenticated t u e4),
      )

  -- AuthByAccessToken lets a user in only if the trimmed token is verified, and the user is the
  -- email or the subject of its claims, not empty, with the role that its claims resolve to.
  pub auth_by_access_token-IsAuthenticated :
      (verify : String → Result IdToken) (token : String) (user : User)
      → auth_by_access_token just users verify token ≡ ok user
      → (is_empty (trim_space token) ≡ false)
        × (t : IdToken) × (verify (trim_space token) ≡ ok t)
        × IsAuthenticated users t user
  unfolding auth_by_access_token
  auth_by_access_token-IsAuthenticated verify token user h =
      let (e0, h0) = >>-eq-ok (reject_if (is_empty (trim_space token)) _) _ h in
      let (t, e1, h1) = >>=-eq-ok (verify (trim_space token)) _ h0 in
      (reject_if-eq-ok _ _ e0, t, e1, access_user-IsAuthenticated t user h1)

-- Under a configuration that passes Validate, whoever a token lets in is an `admin` or a `user`.
pub auth_by_access_token_role :
    (just : Just) (c : Config) (verify : String → Result IdToken) (token : String) (user : User)
    → validate c ≡ ok tt
    → auth_by_access_token just c.users verify token ≡ ok user
    → is_valid_role user.role ≡ true
auth_by_access_token_role just c verify token user valid h =
    let (_, _, _, (claims, raw, _, _, _, _, resolved)) =
      auth_by_access_token-IsAuthenticated just c.users verify token user h in
    role-IsValid c raw user.role valid resolved
