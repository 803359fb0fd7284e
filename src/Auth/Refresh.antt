-- ===== src/Auth/Refresh.antt =====
-- What a refresh token carries: pkg/auth/auth.go.
use anclax.Prelude.{ℕ, ◌≡◌, refl, sym, ap, subst, List, [], ◌∷◌, some}
use anclax.Text.{Bytes}
use anclax.Text.Base64.{AreBytes}
use anclax.Text.Decimal.{IsInt64}
use anclax.Db.{World, Reply, ok}
use anclax.Db.Effects.{calm}
use anclax.Db.Effects.Succeeding.{after-ok, recover-ok, Throws-wrap}
use anclax.Db.Keys.{find_key}
use anclax.Store.{lift, wrapped}
use anclax.Runner.{Parameters}
use anclax.Macaroons.{Library, JsonToken, Macaroon, CaveatParser, create_macaroon}
use anclax.Macaroons.Manager.{create_token, create_key}
use anclax.Macaroons.Chain.{create_macaroon-ok}
use anclax.Macaroons.RoundTrip.{
  IsReadable, AllReadable, parse-create_macaroon, parse_caveat-encode_caveat,
}
use anclax.Auth.{
  AuthCaveat, RefreshOnlyCaveat, library, encode_access, create_access_token, create_refresh_token,
  parse_access, parse_refresh_token,
}

module _ (Other : Type 0) (marshal : AuthCaveat Other → Reply Bytes)
    (tokens : Bytes → List JsonToken) (hmac_sha256 : Bytes → Bytes → Bytes)
    (marshal_task : Parameters → Bytes) (now : ℕ)
    (parser : CaveatParser (library Other marshal tokens hmac_sha256)) where
  abbrev lib : Library
  lib = library Other marshal tokens hmac_sha256

  -- A token that was created has the caveats and the drawn key, under the id that it shows.
  create_access_token-made :
      (key group : Bytes) (ttl : ℕ) (caveats : List (AuthCaveat Other)) (w w' : World)
      (m : Macaroon lib)
      → create_access_token Other marshal tokens hmac_sha256 marshal_task now
          (ok key)
          group
          ttl
          caveats
          w
        ≡ (w', ok m)
      → create_macaroon lib m.key_id key caveats ≡ ok m
  unfolding create_access_token create_token
  create_access_token-made key group ttl caveats w w' m h =
      let created =
        recover-ok (create_token lib marshal_task (ok key) now caveats ttl group w) _ w' m
          (Throws-wrap "failed to create macaroon token") h in
      let (w1, id, stored, k) =
        after-ok (wrapped "failed to get key" (create_key marshal_task now key ttl group) w)
          (λ id. lift (create_macaroon lib id key caveats)) w' m created in
      let made = ap (λ x. x.1) k in
      let (es, e, same) = create_macaroon-ok lib id key caveats m made in
      subst (λ i. create_macaroon lib i key caveats ≡ ok m)
        (ap (λ (x : Macaroon lib). x.key_id) same) made

  -- The caveats of the access token come back.
  parse_access-encode_access :
      (cs : List (AuthCaveat Other)) (w : World)
      → AllReadable lib parser cs
      → (es : List Bytes) × (encode_access Other marshal tokens hmac_sha256 marshal_task now cs
          ≡ ok es)
        × (parse_access Other marshal tokens hmac_sha256 parser es w ≡ (w, ok cs))
  unfolding encode_access parse_access
  parse_access-encode_access [] w h = ([], refl, refl)
  parse_access-encode_access (c ∷ cs) w h =
      let (s, e, dotless, back) = parse_caveat-encode_caveat lib parser c h.0 in
      let (es, es_e, all_back) = parse_access-encode_access cs w h.1 in
      (s ∷ es, rw (e, es_e) refl, rw (back, all_back) refl)

  -- A refresh token for an access token of caveats whose JSON can be read back, while its key is stored
  -- and no statement fails: it is parsed to itself, its group, and exactly the caveats of the access
  -- token, in order.
  pub parse_refresh_token-create_refresh_token :
      (key group : Bytes) (access : Macaroon lib) (ttl : ℕ) (w w' v : World) (m : Macaroon lib)
      → ((k t : Bytes) → AreBytes (hmac_sha256 k t))
      → AllReadable lib parser access.caveats
      → ((es : List Bytes)
          → encode_access Other marshal tokens hmac_sha256 marshal_task now access.caveats ≡ ok es
          → IsReadable lib parser
              (AuthCaveat.refresh_only (record { group = group; access_caveats = es })))
      → create_refresh_token Other marshal tokens hmac_sha256 marshal_task now
          (ok key)
          group
          access
          ttl
          w
        ≡ (w', ok m)
      → IsInt64 m.key_id
      → find_key m.key_id v.db.opaque_keys ≡ some key
      → (es : List Bytes) × (parse_refresh_token Other marshal tokens hmac_sha256 parser
            m.encoded_token
            (calm v)
          ≡ (calm v, ok (m, record { group = group; access_caveats = es }, access.caveats)))
  unfolding create_refresh_token parse_refresh_token
  parse_refresh_token-create_refresh_token key group access ttl w w' v m hash readable wraps h small
        stored =
      let (es, encoded, back) = parse_access-encode_access access.caveats (calm v) readable in
      let roc : RefreshOnlyCaveat = record { group = group; access_caveats = es } in
      let made =
        create_access_token-made key group ttl (AuthCaveat.refresh_only roc ∷ []) w w' m
          (rw encoded at h) in
      let (ds, d, same) =
        create_macaroon-ok lib m.key_id key (AuthCaveat.refresh_only roc ∷ []) m made in
      let caveats : AuthCaveat.refresh_only roc ∷ [] ≡ m.caveats =
        ap (λ (x : Macaroon lib). x.caveats) same in
      let read =
        parse-create_macaroon lib parser m.key_id key (AuthCaveat.refresh_only roc ∷ []) m v small
          hash (wraps es encoded, tt) made stored in
      (es, rw read (rw (sym caveats) (rw back refl)))
