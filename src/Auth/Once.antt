-- ===== src/Auth/Once.antt =====
-- A refresh token is used once: RefreshToken of pkg/service/auth_service.go, over the tokens of
-- pkg/macaroons.
use anclax.Prelude.{ℕ, ◌≡◌, refl, sym, ap, ◌∙◌, subst, inl, inr, false, List, [], ◌∷◌, none, arith}
use anclax.Prelude.Int.{ℤ, pos, ◌<ℤ◌}
use anclax.Text.{Bytes}
use anclax.Errors.{Err, Sentinel}
use anclax.Db.{World, Reply, Reply-cases, ok, M, ◌>>=◌, ◌>>◌, return, throw, recover, statement}
use anclax.Db.Effects.{calm, succeeded}
use anclax.Db.Effects.Succeeding.{after-ok, lift-ok, recover-ok, Throws, Throws-wrap}
use anclax.Db.Keys.{
  find_key, delete_keys, has_key_id, with_keys, delete_opaque_key, find_key-delete_keys_self,
}
use anclax.Store.{wrapped}
use anclax.Runner.{Parameters}
use anclax.Macaroons.{Library, JsonToken, Macaroon, CaveatParser}
use anclax.Macaroons.Manager.{parse, delete_key, invalidate_token}
use anclax.Macaroons.Sound.{parse-IsAuthentic}
use anclax.Macaroons.Fresh.{KeysBelow, find_key-below, parse-still, parse-same_key}
use anclax.Macaroons.Revoked.{parse-absent}
use anclax.Auth.{
  AuthCaveat, RefreshOnlyCaveat, Credentials, library, encode_access, create_access_token,
  create_refresh_token, parse_refresh_token, invalidate_group_of, refresh_token,
}
use anclax.Auth.Frame.{
  invalidate_group_of-calm, parse_refresh_token-parse, create_access_token-calm,
}

unfoldable invalidated : ℤ → World → World
invalidated id w = with_keys (delete_keys (has_key_id id)) w

module _ (Other : Type 0) (marshal : AuthCaveat Other → Reply Bytes)
    (tokens : Bytes → List JsonToken) (hmac_sha256 : Bytes → Bytes → Bytes)
    (marshal_task : Parameters → Bytes) (now : ℕ)
    (parser : CaveatParser (library Other marshal tokens hmac_sha256)) where
  abbrev lib : Library
  lib = library Other marshal tokens hmac_sha256

  invalidated-calm :
      (id : ℤ) (w : World)
      → wrapped "failed to invalidate refresh token" (invalidate_token id) (calm w)
        ≡ (calm (invalidated id w), ok tt)
  unfolding invalidate_token delete_key delete_opaque_key statement invalidated
  invalidated-calm id w = refl

  find_key-invalidated : (id : ℤ) (w : World) → find_key id (invalidated id w).db.opaque_keys ≡ none
  unfolding invalidated
  find_key-invalidated id w = find_key-delete_keys_self id w.db.opaque_keys

  next-invalidated :
      (id : ℤ) (w : World) → (invalidated id w).db.next_opaque_key ≡ w.db.next_opaque_key
  unfolding invalidated
  next-invalidated id w = refl

  abbrev expired : Err → M (Macaroon lib × RefreshOnlyCaveat × List (AuthCaveat Other))
  expired e = throw (
      Err.wrap "failed to parse refresh token"
        (Err.join (Err.sentinel Sentinel.refresh_token_expired) e))

  Throws-expired : Throws expired
  Throws-expired e w w' a h = ground (arith, ap (λ x. x.1) h)

  module _ (key refresh_key : Reply Bytes) (access_ttl refresh_ttl : ℕ) where
    abbrev exchange : Bytes → M Credentials
    exchange =
        refresh_token Other marshal tokens hmac_sha256 marshal_task now key refresh_key access_ttl
          refresh_ttl parser

    abbrev issue : Bytes → List (AuthCaveat Other) → M Credentials
    issue group caveats = do
      access ← wrapped "failed to create access token" (
          create_access_token Other marshal tokens hmac_sha256 marshal_task now key group access_ttl
            caveats)
      next ← wrapped "failed to create refresh token" (
          create_refresh_token Other marshal tokens hmac_sha256 marshal_task now refresh_key group
            access refresh_ttl)
      return (record { access_token = access.encoded_token; refresh_token = next.encoded_token })

    abbrev exchange_parsed :
        Macaroon lib × RefreshOnlyCaveat × List (AuthCaveat Other) → M Credentials
    exchange_parsed (refresh, roc, caveats) = do
      invalidate_group_of Other marshal tokens hmac_sha256 roc.group
      wrapped "failed to invalidate refresh token" (invalidate_token refresh.key_id)
      issue roc.group caveats

    -- An exchange that succeeds has parsed its token.
    exchange-parsed :
        (token : Bytes) (w w' : World) (creds : Credentials)
        → exchange token w ≡ (w', ok creds)
        → (m : Macaroon lib) × (roc : RefreshOnlyCaveat) × (cs : List (AuthCaveat Other))
          × (v : World) × (parse lib parser token w ≡ (v, ok m))
          × (exchange_parsed (m, roc, cs) v ≡ (w', ok creds))
    unfolding refresh_token
    exchange-parsed token w w' creds h =
        let (v, (m, roc, cs), read, k) =
          after-ok
            (recover (parse_refresh_token Other marshal tokens hmac_sha256 parser token w) expired)
            exchange_parsed w' creds h in
        let (v2, parsed, same) =
          parse_refresh_token-parse Other marshal tokens hmac_sha256 marshal_task now parser token w
            v (m, roc, cs)
            (recover-ok (parse_refresh_token Other marshal tokens hmac_sha256 parser token w)
              expired v (m, roc, cs) Throws-expired read) in
        (m, roc, cs, v, parsed ∙ ap (λ (x : World). (x, ok m)) same, k)

    -- The two new tokens bring no old key back.
    issue-calm :
        (group : Bytes) (cs : List (AuthCaveat Other)) (w w' : World) (creds : Credentials) (id : ℤ)
        → issue group cs (calm w) ≡ (w', ok creds)
        → find_key id w.db.opaque_keys ≡ none
        → id <ℤ pos w.db.next_opaque_key
        → find_key id w'.db.opaque_keys ≡ none
    unfolding create_refresh_token
    issue-calm group cs w w' creds id h gone low =
        let (w1, access, made, k) =
          after-ok
            (wrapped "failed to create access token"
              (create_access_token Other marshal tokens hmac_sha256 marshal_task now key group
                access_ttl cs)
              (calm w))
            (λ access.
              wrapped "failed to create refresh token" (
                create_refresh_token Other marshal tokens hmac_sha256 marshal_task now refresh_key
                  group access refresh_ttl)
              >>= λ next. return (record {
                access_token = access.encoded_token;
                refresh_token = next.encoded_token;
              }))
            w' creds h in
        let (v1, e1, next1, frame1) =
          create_access_token-calm Other marshal tokens hmac_sha256 marshal_task now parser key
            group access_ttl cs w w1 access
            (recover-ok
              (create_access_token Other marshal tokens hmac_sha256 marshal_task now key group
                access_ttl cs (calm w))
              _ w1 access (Throws-wrap "failed to create access token") made) in
        let (w2, refresh, made2, k2) =
          after-ok
            (wrapped "failed to create refresh token"
              (create_refresh_token Other marshal tokens hmac_sha256 marshal_task now refresh_key
                group access refresh_ttl)
              w1)
            (λ next.
              return (record {
                access_token = access.encoded_token;
                refresh_token = next.encoded_token;
              }))
            w' creds k in
        let created =
          recover-ok
            (create_refresh_token Other marshal tokens hmac_sha256 marshal_task now refresh_key
              group access refresh_ttl w1)
            _ w2 refresh (Throws-wrap "failed to create refresh token") made2 in
        let (es, encoded, made3) =
          lift-ok (encode_access Other marshal tokens hmac_sha256 marshal_task now access.caveats)
            (λ es.
              create_access_token Other marshal tokens hmac_sha256 marshal_task now refresh_key
                group refresh_ttl
                (AuthCaveat.refresh_only (record { group = group; access_caveats = es }) ∷ []))
            w1 w2 refresh created in
        let (v2, e2, next2, frame2) =
          create_access_token-calm Other marshal tokens hmac_sha256 marshal_task now parser
            refresh_key group refresh_ttl
            (AuthCaveat.refresh_only (record { group = group; access_caveats = es }) ∷ []) v1 w2
            refresh
            (ap
                (create_access_token Other marshal tokens hmac_sha256 marshal_task now refresh_key
                  group refresh_ttl
                  (AuthCaveat.refresh_only (record { group = group; access_caveats = es }) ∷ []))
                (sym e1)
              ∙ made3) in
        let none1 = frame1 id gone (λ same. ground (arith, low, same)) in
        let none2 = frame2 id none1 (λ same. ground (arith, low, same, next1)) in
        subst (λ (x : World). find_key id x.db.opaque_keys ≡ none) (sym e2 ∙ ap (λ x. x.0) k2) none2

    exchange-again :
        (token : Bytes) (w w' v : World) (creds again : Credentials)
        → KeysBelow w.db.next_opaque_key w.db.opaque_keys
        → exchange token (calm w) ≡ (w', ok creds)
        → exchange token w' ≡ (v, ok again)
        → ⊥
    exchange-again token w w' v creds again below h second =
        let (m, roc, cs, w1, parsed, k) = exchange-parsed token (calm w) w' creds h in
        let (n, roc', cs', v1, parsed', rest) = exchange-parsed token w' v again second in
        let a = parse-IsAuthentic lib parser token (calm w) w1 m parsed in
        let (u, grouped, next) =
          invalidate_group_of-calm Other marshal tokens hmac_sha256 roc.group w in
        let low =
          find_key-below w.db.next_opaque_key m.key_id w.db.opaque_keys a.key below a.stored in
        let still : calm w ≡ w1 = sym (parse-still lib parser token w) ∙ ap (λ x. x.0) parsed in
        let issued : issue roc.group cs (calm (invalidated m.key_id u)) ≡ (w', ok creds) =
          rw (invalidated-calm m.key_id u) at
            (rw grouped at (ap (exchange_parsed (m, roc, cs)) still ∙ k)) in
        let gone =
          issue-calm roc.group cs (invalidated m.key_id u) w' creds m.key_id issued
            (find_key-invalidated m.key_id u)
            (subst (λ x. m.key_id <ℤ pos x) (sym (next-invalidated m.key_id u ∙ next)) low) in
        parse-absent lib parser m.key_id token w' v1 n gone parsed'
          (sym (parse-same_key lib parser token (calm w) w1 w' v1 m n parsed parsed'))

    -- A refresh token that was exchanged, when no statement failed and the ids of keys are given out in
    -- order: exchanging it a second time, on the state that the first has left, fails.
    pub refresh_token-once :
        (token : Bytes) (w w' : World) (creds : Credentials)
        → KeysBelow w.db.next_opaque_key w.db.opaque_keys
        → exchange token (calm w) ≡ (w', ok creds)
        → succeeded (exchange token w').1 ≡ false
    refresh_token-once token w w' creds below h = elim (Reply-cases (exchange token w').1) [
      | inr (e, f) ↦ rw f refl
      | inl (again, f) ↦ absurd (
          exchange-again token w w' (exchange token w').0 creds again below h
            (ap (λ (r : Reply Credentials). ((exchange token w').0, r)) f))
    ]
