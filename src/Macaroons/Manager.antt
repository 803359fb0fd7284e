-- ===== src/Macaroons/Manager.antt =====
-- The key store, pkg/macaroons/store/store.go, and the token manager over it,
-- pkg/macaroons/macaroons.go. A random key is drawn by the caller: the draw may fail.
use anclax.Prelude.{ℕ, ◌+◌, false, String, List, [], ◌∷◌, Option, none, some, if◌then◌else◌, ltb}
use anclax.Prelude.Int.{ℤ}
use anclax.Text.{Bytes, split}
use anclax.Text.Base64.{decode}
use anclax.Text.Decimal.{parse_int}
use anclax.Errors.{Err, Sentinel, errors_is}
use anclax.Db.{Reply, M, ◌>>=◌, ◌>>◌, return, throw, catch, run_transaction}
use anclax.Db.Keys.{create_opaque_key, get_opaque_key, delete_opaque_key, delete_opaque_keys}
use anclax.Store.{lift, wrapped}
use anclax.Store.Overrides.{with_started_at}
use anclax.Runner.{Parameters, run_task}
use anclax.Macaroons.{
  Library, Macaroon, CaveatParser, create_macaroon, wrap_reply, verify, malformed, decode_or,
}

abbrev group_of : Bytes → Option Bytes
group_of [] = none
group_of (c ∷ group) = some (c ∷ group)

-- The deletion of a key that lives for a time.
abbrev schedule_deletion : (Parameters → Bytes) → ℕ → ℤ → ℕ → M (Unit {0})
schedule_deletion marshal now key_id ttl =
    if ltb 0 ttl
    then (wrapped "failed to run task to delete key" (
          run_task marshal (Parameters.delete_opaque_key key_id) (with_started_at (now + ttl) ∷ []))
        >>= λ id. return tt)
    else return tt

unfoldable pub create_key : (Parameters → Bytes) → ℕ → Bytes → ℕ → Bytes → M ℤ
create_key marshal now key ttl group = run_transaction false (do
  key_id ← wrapped "failed to create key" (create_opaque_key (group_of group) key)
  schedule_deletion marshal now key_id ttl
  return key_id)

abbrev pub key_missing : {A : Type 0} → String → Err → M A
key_missing what e =
    if errors_is e Sentinel.no_rows
    then throw (Err.sentinel Sentinel.key_not_found)
    else throw (Err.wrap what e)

unfoldable pub get_key : ℤ → M Bytes
get_key id = catch (get_opaque_key id) (key_missing "failed to get key")

unfoldable pub delete_key : ℤ → M (Unit {0})
delete_key id = catch (delete_opaque_key id) (key_missing "failed to delete key")

unfoldable pub delete_group_keys : Bytes → M (Unit {0})
delete_group_keys [] = return tt
delete_group_keys (c ∷ group) =
    catch (delete_opaque_keys (c ∷ group)) (key_missing "failed to delete group keys")

-- A key that is gone is no error.
abbrev pub unless_missing : String → Err → M (Unit {0})
unless_missing what e =
    if errors_is e Sentinel.key_not_found then return tt else throw (Err.wrap what e)

unfoldable pub invalidate_token : ℤ → M (Unit {0})
unfolding delete_key
invalidate_token id = catch (delete_key id) (unless_missing "failed to delete key")

unfoldable pub invalidate_tokens_by_group : Bytes → M (Unit {0})
unfolding delete_group_keys
invalidate_tokens_by_group group =
    catch (delete_group_keys group) (unless_missing "failed to delete group keys")

-- parts[0 : len(parts)-1] and parts[len(parts)-1], of two parts at least.
unfoldable pub init_last : Bytes → List Bytes → List Bytes × Bytes
init_last part [] = ([], part)
init_last part (next ∷ parts) = let (front, back) = init_last next parts in (part ∷ front, back)

module _ (lib : Library) (marshal_task : Parameters → Bytes) where
  open lib use {Caveat}

  unfoldable pub create_token : Reply Bytes → ℕ → List Caveat → ℕ → Bytes → M (Macaroon lib)
  unfolding create_key create_macaroon
  create_token random_key now caveats ttl group = do
    key ← lift (wrap_reply "failed to generate random key" random_key)
    key_id ← wrapped "failed to get key" (create_key marshal_task now key ttl group)
    lift (create_macaroon lib key_id key caveats)

module _ (lib : Library) where
  unfoldable pub parse_parts :
      CaveatParser lib → Bytes → Bytes → List Bytes → Bytes → M (Macaroon lib)
  unfolding get_key verify
  parse_parts parser token encoded_key_id encoded_caveats encoded_signature = do
    header ← lift (decode_or "failed to decode header" (decode encoded_key_id))
    key_id ← lift (decode_or "failed to convert keyID to int" (parse_int header))
    key ← wrapped "failed to get key" (get_key key_id)
    lift (verify lib parser token key_id encoded_key_id encoded_caveats encoded_signature key)

  abbrev pub parse_split : CaveatParser lib → Bytes → List Bytes → M (Macaroon lib)
  parse_split parser token (encoded_key_id ∷ next ∷ parts) =
      parse_parts parser token encoded_key_id (init_last next parts).0 (init_last next parts).1
  parse_split parser token _ = lift (malformed "token must contain at least 2 parts")

  unfoldable pub parse : CaveatParser lib → Bytes → M (Macaroon lib)
  unfolding parse_parts split init_last
  parse parser token = parse_split parser token (split b'.' token)
