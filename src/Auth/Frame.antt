-- ===== src/Auth/Frame.antt =====
-- What the operations on tokens leave of the keys: pkg/auth/auth.go.
use anclax.Prelude.{ℕ, ◌+◌, ◌≡◌, ◌≢◌, refl, sym, ap, ◌∙◌, inl, inr, List, [], ◌∷◌, none, arith}
use anclax.Prelude.Int.{ℤ, pos}
use anclax.Text.{Bytes}
use anclax.Db.{World, Reply, Reply-cases, ok, fail, ◌>>=◌, return, after, statement}
use anclax.Db.Effects.{calm}
use anclax.Db.Effects.Succeeding.{after-ok, recover-ok, Throws-wrap}
use anclax.Db.Keys.{find_key, delete_keys, in_key_group, with_keys, delete_opaque_keys}
use anclax.Store.{wrapped}
use anclax.Runner.{Parameters}
use anclax.Macaroons.{Library, JsonToken, Macaroon, CaveatParser, parse_caveat}
use anclax.Macaroons.Manager.{parse, create_token, delete_group_keys, invalidate_tokens_by_group}
use anclax.Macaroons.Fresh.{create_key-calm}
use anclax.Auth.{
  AuthCaveat, RefreshOnlyCaveat, library, create_access_token, parse_access, refresh_only_of,
  parse_refresh_token, invalidate_group_of,
}

-- What stands behind a bind that only makes a value of the value.
after-return :
    {A B : Type 0} (out : World × Reply A) (f : A → B) → (after out (λ a. return (f a))).0 ≡ out.0
after-return (w, ok a) f = refl
after-return (w, fail e) f = refl

pub invalidate_group_of-calm :
    (Other : Type 0) (marshal : AuthCaveat Other → Reply Bytes) (tokens : Bytes → List JsonToken)
    (hmac_sha256 : Bytes → Bytes → Bytes) (group : Bytes) (w : World)
    → (v : World) × (invalidate_group_of Other marshal tokens hmac_sha256 group (calm w)
        ≡ (calm v, ok tt))
      × (v.db.next_opaque_key ≡ w.db.next_opaque_key)
unfolding invalidate_tokens_by_group delete_group_keys delete_opaque_keys statement
invalidate_group_of-calm Other marshal tokens hmac_sha256 [] w = (w, refl, refl)
invalidate_group_of-calm Other marshal tokens hmac_sha256 (c ∷ group) w =
    (with_keys (delete_keys (in_key_group (c ∷ group))) w, refl, refl)

module _ (Other : Type 0) (marshal : AuthCaveat Other → Reply Bytes)
    (tokens : Bytes → List JsonToken) (hmac_sha256 : Bytes → Bytes → Bytes)
    (marshal_task : Parameters → Bytes) (now : ℕ)
    (parser : CaveatParser (library Other marshal tokens hmac_sha256)) where
  abbrev lib : Library
  lib = library Other marshal tokens hmac_sha256

  refresh_only_of-still :
      (cs : List (AuthCaveat Other)) (w : World)
      → (refresh_only_of Other marshal tokens hmac_sha256 cs w).0 ≡ w
  refresh_only_of-still [] w = refl
  refresh_only_of-still (AuthCaveat.refresh_only c ∷ []) w = refl
  refresh_only_of-still (AuthCaveat.user_context user org ∷ []) w = refl
  refresh_only_of-still (AuthCaveat.other c ∷ []) w = refl
  refresh_only_of-still (c ∷ d ∷ cs) w = go c
    where
      go :
          (c : AuthCaveat Other)
          → (refresh_only_of Other marshal tokens hmac_sha256 (c ∷ d ∷ cs) w).0 ≡ w
      go (AuthCaveat.refresh_only x) = refl
      go (AuthCaveat.user_context user org) = refl
      go (AuthCaveat.other x) = refl

  parse_access-still :
      (es : List Bytes) (w : World)
      → (parse_access Other marshal tokens hmac_sha256 parser es w).0 ≡ w
  unfolding parse_access
  parse_access-still [] w = refl
  parse_access-still (e ∷ es) w = elim (Reply-cases (parse_caveat lib parser e)) [
    | inl (c, f) ↦ rw f (
        after-return (parse_access Other marshal tokens hmac_sha256 parser es w)
          (λ (cs : List (AuthCaveat Other)). c ∷ cs)
        ∙ parse_access-still es w)
    | inr (x, f) ↦ rw f refl
  ]

  -- A refresh token that is parsed: the macaroon is that of its token.
  pub parse_refresh_token-parse :
      (token : Bytes) (w w' : World)
      (out : Macaroon lib × RefreshOnlyCaveat × List (AuthCaveat Other))
      → parse_refresh_token Other marshal tokens hmac_sha256 parser token w ≡ (w', ok out)
      → (v : World) × (parse lib parser token w ≡ (v, ok out.0)) × (v ≡ w')
  unfolding parse_refresh_token
  parse_refresh_token-parse token w w' out h =
      let (v, m, read, k) =
        after-ok (wrapped "failed to parse macaroon token" (parse lib parser token) w)
          (λ token. refresh_only_of Other marshal tokens hmac_sha256 token.caveats >>= λ roc.
            parse_access Other marshal tokens hmac_sha256 parser roc.access_caveats >>= λ caveats.
            return (token, roc, caveats))
          w' out h in
      let (v2, roc, only, k2) =
        after-ok (refresh_only_of Other marshal tokens hmac_sha256 m.caveats v)
          (λ roc.
            parse_access Other marshal tokens hmac_sha256 parser roc.access_caveats >>= λ caveats.
            return (m, roc, caveats))
          w' out k in
      let (v3, cs, access, made) =
        after-ok (parse_access Other marshal tokens hmac_sha256 parser roc.access_caveats v2)
          (λ caveats. return (m, roc, caveats)) w' out k2 in
      let parsed =
        recover-ok (parse lib parser token w) _ v m (Throws-wrap "failed to parse macaroon token")
          read in
      (
        v,
        parsed ∙ ap (λ (x : Macaroon lib). (v, ok x)) (ground (arith, ap (λ x. x.1) made)),
        sym (refresh_only_of-still m.caveats v)
            ∙ ap (λ x. x.0) only
            ∙ sym (parse_access-still roc.access_caveats v2)
            ∙ ap (λ x. x.0) access
            ∙ ap (λ x. x.0) made,
      )

  -- A new token brings no key back.
  pub create_access_token-calm :
      (key : Reply Bytes) (group : Bytes) (ttl : ℕ) (caveats : List (AuthCaveat Other))
      (w w' : World) (m : Macaroon lib)
      → create_access_token Other marshal tokens hmac_sha256 marshal_task now key group ttl caveats
          (calm w)
        ≡ (w', ok m)
      → (v : World) × (w' ≡ calm v)
        × (v.db.next_opaque_key ≡ w.db.next_opaque_key + 1)
        × ((id : ℤ)
            → find_key id w.db.opaque_keys ≡ none
            → pos w.db.next_opaque_key ≢ id
            → find_key id v.db.opaque_keys ≡ none)
  unfolding create_access_token create_token
  create_access_token-calm (fail e) group ttl caveats w w' m h =
      absurd (ground (arith, ap (λ x. x.1) h))
  create_access_token-calm (ok key) group ttl caveats w w' m h =
      let created =
        recover-ok (create_token lib marshal_task (ok key) now caveats ttl group (calm w)) _ w' m
          (Throws-wrap "failed to create macaroon token") h in
      let (v, stored, next, frame) = create_key-calm marshal_task now key ttl group w in
      (v, sym (ap (λ x. x.0) (rw stored at created)), next, frame)
