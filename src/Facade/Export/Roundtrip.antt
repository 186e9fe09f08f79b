-- ===== src/Facade/Export/Roundtrip.antt =====
-- The signed token of a download is read back as it was built.
use text.Mathlib.TextLemmas.{nil-append, cons-append}
use database_gateway.Common.{
  ◌≡◌, refl, ℕ, String, ◌<>◌, true, false, some, ok, >>=-eq-ok, ok_injective,
}
use database_gateway.Common.Text.{leb, ◌=ℕ◌}
use database_gateway.Common.Text.Clean.{
  AllCodes, AllCodes-append, AllCodes-map_to, IsVisible, trim_space_visible,
}
use database_gateway.Config.{UserId}
use database_gateway.Facade.Export.{
  cut, ExportClaims, Surroundings, token_parts, is_supported_export_format, build_export_token,
  parse_export_token,
}

abbrev pub IsPart : ℕ → Type 0
IsPart c = ((c =ℕ b'.') ≡ false) × IsVisible c

-- A text is cut at its first dot.
cut_dot :
    (a b : String)
    → AllCodes (λ c. (c =ℕ b'.') ≡ false) a
    → cut b'.' (a <> ("." <> b)) ≡ some (a, b)
unfolding cut
cut_dot String.[] b h = rw (nil-append ("." <> b), cons-append "." "" b, nil-append b) refl
cut_dot (String.◌∷◌ c a) b (p, h) =
    rw (cons-append c a ("." <> b)) (rw (p, cut) (rw (cut_dot a b h) refl))

-- What the libraries promise: base64 for URLs writes no dot and no white space, and decoding gives
-- back what was encoded; JSON gives back the claims that were marshalled.
pub record IsFaithful (s : Surroundings) : Type 0 where
  pub decode-encode : (bytes : s.Bytes) → s.decode (s.encode bytes) ≡ ok bytes
  pub encode_clean : (bytes : s.Bytes) → AllCodes IsPart (s.encode bytes)
  pub unmarshal-marshal :
      (claims : ExportClaims) (bytes : s.Bytes)
      → s.marshal claims ≡ ok bytes
      → s.unmarshal bytes ≡ ok claims

-- The surroundings at a time.
abbrev pub at_time : Surroundings → ℕ → Surroundings
at_time s now = record s { now = now }

token_parts_of :
    (a b : String)
    → AllCodes IsPart a
    → AllCodes IsPart b
    → token_parts (a <> ("." <> b)) ≡ ok (a, b)
unfolding token_parts
token_parts_of a b ha hb =
    let visible =
      λ (t : String) (h : AllCodes IsPart t). AllCodes-map_to IsPart IsVisible t (λ c q. q.1) h in
    let dot : AllCodes IsVisible "." = (refl, tt) in
    let whole : AllCodes IsVisible (a <> ("." <> b)) =
      AllCodes-append IsVisible a ("." <> b) (visible a ha)
        (AllCodes-append IsVisible "." b dot (visible b hb)) in
    rw (trim_space_visible (a <> ("." <> b)) whole, token_parts)
      (rw (cut_dot a b (AllCodes-map_to IsPart (λ c. (c =ℕ b'.') ≡ false) a (λ c q. q.0) ha)) refl)

module _ (s : Surroundings) (faithful : IsFaithful s) where
  -- What parsing a token needs.
  parses :
      (payload : s.Bytes) (claims : ExportClaims) (now : ℕ)
      → s.unmarshal payload ≡ ok claims
      → is_supported_export_format claims.format ≡ true
      → leb now claims.expires_at ≡ true
      → parse_export_token (at_time s now) (s.encode payload <> ("." <> s.encode (s.sign payload)))
        ≡ ok claims
  unfolding parse_export_token
  parses payload claims now read supported fresh =
      let open_parts =
        token_parts_of (s.encode payload) (s.encode (s.sign payload))
          (faithful.encode_clean payload) (faithful.encode_clean (s.sign payload)) in
      rw open_parts (
        rw
          (
            faithful.decode-encode payload,
            faithful.decode-encode (s.sign payload),
            (s.equal_iff (s.sign payload) (s.sign payload)).1 refl,
            read,
            supported,
            fresh,
          )
          refl)

  -- A token that is built for a user, a result and a format that is supported is read back, by the
  -- end of the second at which it expires, as claims that name this user, result and format.
  pub parse-build :
      (user_id : UserId) (id format : String) (expires_at : ℕ) (token : String) (now : ℕ)
      → build_export_token s user_id id format expires_at ≡ ok token
      → is_supported_export_format format ≡ true
      → leb now expires_at ≡ true
      → (nonce : String) × (parse_export_token (at_time s now) token
          ≡ ok (record {
            user_id = user_id;
            query_result_id = id;
            format = format;
            expires_at = expires_at;
            nonce = nonce;
          }))
  unfolding build_export_token
  parse-build user_id id format expires_at token now h supported fresh =
      let (nonce, e1, h1) = >>=-eq-ok s.random _ h in
      let claims : ExportClaims = record {
        user_id = user_id;
        query_result_id = id;
        format = format;
        expires_at = expires_at;
        nonce = s.encode nonce;
      } in
      let (payload, e2, h2) = >>=-eq-ok (s.marshal claims) _ h1 in
      (
        s.encode nonce,
        rw (← ok_injective h2) (
            parses payload claims now (faithful.unmarshal-marshal claims payload e2) supported
              fresh),
      )
