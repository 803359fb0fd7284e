-- ===== src/Macaroons/Revoked.antt =====
-- Tokens of deleted keys: pkg/macaroons/macaroons.go and pkg/macaroons/store/store.go.
use anclax.Prelude.{ℕ, ◌≡◌, ◌≢◌, subst, true, ◌∷◌, none, some, arith}
use anclax.Prelude.Int.{ℤ}
use anclax.Text.{Bytes}
use anclax.Db.{World, ok, statement}
use anclax.Db.Effects.{calm}
use anclax.Db.Keys.{
  find_key, delete_opaque_key, delete_opaque_keys, all_in_group, find_key-delete_keys_self,
  find_key-delete_group,
}
use anclax.Macaroons.{Library, Macaroon, CaveatParser}
use anclax.Macaroons.Manager.{
  parse, delete_key, delete_group_keys, invalidate_token, invalidate_tokens_by_group,
}
use anclax.Macaroons.Sound.{parse-IsAuthentic}

pub invalidate_token-calm :
    (id : ℤ) (w : World) → find_key id (invalidate_token id (calm w)).0.db.opaque_keys ≡ none
unfolding invalidate_token delete_key delete_opaque_key statement
invalidate_token-calm id w = find_key-delete_keys_self id w.db.opaque_keys

invalidate_group-calm :
    (c : ℕ) (group : Bytes) (id : ℤ) (w : World)
    → all_in_group id (c ∷ group) w.db.opaque_keys ≡ true
    → find_key id (invalidate_tokens_by_group (c ∷ group) (calm w)).0.db.opaque_keys ≡ none
unfolding invalidate_tokens_by_group delete_group_keys delete_opaque_keys statement
invalidate_group-calm c group id w h = find_key-delete_group id (c ∷ group) w.db.opaque_keys h

module _ (lib : Library) (parser : CaveatParser lib) where
  -- A token of a key that is not stored is not parsed.
  pub parse-absent :
      (id : ℤ) (token : Bytes) (w w' : World) (m : Macaroon lib)
      → find_key id w.db.opaque_keys ≡ none
      → parse lib parser token w ≡ (w', ok m)
      → m.key_id ≢ id
  parse-absent id token w w' m gone h same =
      let a = parse-IsAuthentic lib parser token w w' m h in
      absurd
        (ground (arith, gone, subst (λ i. find_key i w.db.opaque_keys ≡ some a.key) same a.stored))

  -- After a token's key is invalidated, with no statement failing, no token at all is parsed to a
  -- macaroon of that key.
  parse-invalidate_token :
      (id : ℤ) (token : Bytes) (w w' : World) (m : Macaroon lib)
      → parse lib parser token (invalidate_token id (calm w)).0 ≡ (w', ok m)
      → m.key_id ≢ id
  parse-invalidate_token id token w w' m =
      parse-absent id token (invalidate_token id (calm w)).0 w' m (invalidate_token-calm id w)

  -- After a group with a name is invalidated, with no statement failing, no token is parsed to a
  -- macaroon of a key of that group.
  pub parse-invalidate_group :
      (c : ℕ) (group : Bytes) (id : ℤ) (token : Bytes) (w w' : World) (m : Macaroon lib)
      → all_in_group id (c ∷ group) w.db.opaque_keys ≡ true
      → parse lib parser token (invalidate_tokens_by_group (c ∷ group) (calm w)).0 ≡ (w', ok m)
      → m.key_id ≢ id
  parse-invalidate_group c group id token w w' m h =
      parse-absent id token (invalidate_tokens_by_group (c ∷ group) (calm w)).0 w' m
        (invalidate_group-calm c group id w h)
