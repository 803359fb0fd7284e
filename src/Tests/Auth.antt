-- ===== src/Tests/Auth.antt =====
-- Examples for pkg/auth and for the refresh of pkg/service/auth_service.go, with the toy hash.
use anclax.Prelude.{ℕ, ◌≡◌, refl, true, false, List, [], ◌∷◌, some, arith, subst}
use anclax.Prelude.Int.{pos, int_eq}
use anclax.Prelude.Dict.{lookup}
use anclax.Text.{Bytes, bytes_eq, bytes_Eq, join_after, trim_suffix}
use anclax.Text.Base64.{encode, decode}
use anclax.Text.Decimal.{format_int, parse_int}
use anclax.Errors.{Err}
use anclax.Db.{World, Reply, ok, fail, statement, run_transaction}
use anclax.Db.Inserts.{create_task}
use anclax.Store.{
  push_task, insert_pushed, serial_attributes_from_json, serial_attributes,
  priority_and_weight_attributes,
}
use anclax.Store.Overrides.{with_started_at}
use anclax.Db.Keys.{
  find_key, create_opaque_key, get_opaque_key, delete_opaque_key, delete_opaque_keys,
}
use anclax.Db.Effects.{calm, succeeded}
use anclax.Runner.{Parameters, run_task}
use anclax.Macaroons.{
  Macaroon, CaveatParser, JsonToken, type_key, retrieve_from_json, retrieve_loop, encode_caveat,
  encode_caveats, create_macaroon, parse_caveat, decode_caveat,
}
use anclax.Macaroons.Manager.{
  parse, parse_parts, create_token, create_key, invalidate_token, invalidate_tokens_by_group,
  delete_key, delete_group_keys,
}
use anclax.Macaroons.Chain.{over}
use anclax.Macaroons.RoundTrip.{IsReadable, parse-create_macaroon}
use anclax.Macaroons.Sound.{IsAuthentic}
use anclax.Auth.{
  AuthCaveat, RefreshOnlyCaveat, Request, Locals, no_locals, Credentials, library, authfunc,
  token_of_header, is_refresh, create_refresh_token, parse_refresh_token, refresh_token,
  encode_access, create_access_token, parse_access, validate, validate_all,
}
use anclax.Auth.Access.{contexts, is_for_refresh, IsUser, KeepsUser, authfunc-IsUser}
use anclax.Auth.Refresh.{parse_refresh_token-create_refresh_token}
use anclax.Auth.Once.{refresh_token-once}
use anclax.Tests.Store.{world_of}
use anclax.Tests.Macaroons.{checksum, mac, mac-AreBytes}

-- The JSON of a caveat is its type: "u" or "r".
abbrev kind : AuthCaveat ℕ → Reply Bytes
kind (AuthCaveat.user_context user org) = ok (b'u' ∷ [])
kind (AuthCaveat.refresh_only c) = ok (b'r' ∷ [])
kind (AuthCaveat.other c) = fail (Err.message "other")

abbrev scan : Bytes → List JsonToken
scan raw =
    JsonToken.open_delim ∷ JsonToken.text type_key ∷ JsonToken.text raw ∷ JsonToken.close_delim ∷ []

abbrev user : AuthCaveat ℕ
user = AuthCaveat.user_context (pos 7) (pos 3)

abbrev group : Bytes
group = b'g' ∷ []

abbrev carried : RefreshOnlyCaveat
carried = record { group = group; access_caveats = encode (b'u' ∷ []) ∷ [] }

abbrev parser : CaveatParser (library ℕ kind scan mac)
parser = (b'u' ∷ [], λ raw. ok user) ∷ (b'r' ∷ [], λ raw. ok (AuthCaveat.refresh_only carried)) ∷ []

abbrev no_other : ℕ → Request → Locals → Reply Locals
no_other c r l = ok l

no_other-KeepsUser : KeepsUser no_other
no_other-KeepsUser c r l l' h = (ground (arith, h), ground (arith, h))

abbrev key : Bytes
key = 1 ∷ 2 ∷ []

abbrev stored : World
stored = record (world_of []) {
  db = record (world_of []).db {
    opaque_keys = record { id = pos 5; group = some group; key = key } ∷ [];
    next_opaque_key = 6;
  };
}

abbrev access : Macaroon (library ℕ kind scan mac)
access = over (library ℕ kind scan mac) (pos 5) key (user ∷ []) (encode (b'u' ∷ []) ∷ [])

abbrev refresh_macaroon : Macaroon (library ℕ kind scan mac)
refresh_macaroon =
    over (library ℕ kind scan mac) (pos 5) key (AuthCaveat.refresh_only carried ∷ [])
      (encode (b'r' ∷ []) ∷ [])

user-IsReadable : IsReadable (library ℕ kind scan mac) parser user
unfolding retrieve_from_json retrieve_loop bytes_eq lookup
user-IsReadable = record {
  raw = b'u' ∷ [];
  typ = b'u' ∷ [];
  constructor = λ raw. ok user;
  marshals = refl;
  bytes = (omega arith, tt);
  has_type = refl;
  registered = refl;
  constructs = refl;
}

carried-IsReadable : IsReadable (library ℕ kind scan mac) parser (AuthCaveat.refresh_only carried)
unfolding retrieve_from_json retrieve_loop bytes_eq lookup
carried-IsReadable = record {
  raw = b'r' ∷ [];
  typ = b'r' ∷ [];
  constructor = λ raw. ok (AuthCaveat.refresh_only carried);
  marshals = refl;
  bytes = (omega arith, tt);
  has_type = refl;
  registered = refl;
  constructs = refl;
}

key_there : find_key (pos 5) stored.db.opaque_keys ≡ some key
unfolding find_key int_eq
key_there = refl

refresh_made :
    create_macaroon (library ℕ kind scan mac) (pos 5) key (AuthCaveat.refresh_only carried ∷ [])
    ≡ ok refresh_macaroon
unfolding create_macaroon encode_caveats encode_caveat
refresh_made = refl

refresh_parsed :
    parse (library ℕ kind scan mac) parser refresh_macaroon.encoded_token (calm stored)
    ≡ (calm stored, ok refresh_macaroon)
refresh_parsed =
    parse-create_macaroon (library ℕ kind scan mac) parser (pos 5) key
      (AuthCaveat.refresh_only carried ∷ []) refresh_macaroon stored (omega arith) mac-AreBytes
      (carried-IsReadable, tt) refresh_made key_there

abbrev get : Request
get = record { method = "GET"; path = b'/' ∷ [] }

abbrev as_user : Locals
as_user = record { user_id = some (pos 7); org_id = some (pos 3) }

let_through :
    authfunc ℕ kind scan mac no_other parser access.encoded_token get no_locals (calm stored)
    ≡ (calm stored, ok (access, as_user))
unfolding authfunc token_of_header validate_all validate parse parse_parts join_after encode
    format_int decode parse_int get_opaque_key int_eq checksum lookup trim_suffix
let_through = refl

authfunc-IsUser_example :
    IsAuthentic
      (library ℕ kind scan mac)
      parser
      (calm stored)
      (token_of_header access.encoded_token)
      access
    × (is_for_refresh access.caveats ≡ true → is_refresh get ≡ true)
    × IsUser (contexts access.caveats) as_user
authfunc-IsUser_example =
    authfunc-IsUser ℕ kind scan mac no_other parser access.encoded_token get (calm stored)
      (calm stored) access as_user no_other-KeepsUser let_through

abbrev name : Parameters → Bytes
name p = 1 ∷ []

-- A refresh token of the key 6, which is new.
abbrev issued : Macaroon (library ℕ kind scan mac)
issued =
    over (library ℕ kind scan mac) (pos 6) key (AuthCaveat.refresh_only carried ∷ [])
      (encode (b'r' ∷ []) ∷ [])

abbrev after_issue : World
after_issue =
    (create_refresh_token ℕ kind scan mac name 100 (ok key) group access 50 (calm stored)).0

refresh_issued :
    create_refresh_token ℕ kind scan mac name 100 (ok key) group access 50 (calm stored)
    ≡ (after_issue, ok issued)
unfolding create_refresh_token encode_access create_access_token create_token run_transaction
    create_opaque_key run_task with_started_at push_task insert_pushed serial_attributes_from_json
    serial_attributes priority_and_weight_attributes create_task
refresh_issued = refl

key_issued : find_key (pos 6) after_issue.db.opaque_keys ≡ some key
unfolding create_refresh_token encode_access create_access_token create_token find_key int_eq
    run_transaction create_opaque_key run_task with_started_at push_task insert_pushed
    serial_attributes_from_json serial_attributes priority_and_weight_attributes create_task
key_issued = refl

only_carried :
    (es : List Bytes)
    → encode_access ℕ kind scan mac name 100 access.caveats ≡ ok es
    → IsReadable
        (library ℕ kind scan mac)
        parser
        (AuthCaveat.refresh_only (record { group = group; access_caveats = es }))
unfolding encode_access encode_caveat
only_carried es h =
    subst
      (λ xs.
        IsReadable (library ℕ kind scan mac) parser
          (AuthCaveat.refresh_only (record { group = group; access_caveats = xs })))
      (ground (arith, h)) carried-IsReadable

parse_refresh_token-create_refresh_token_example :
    (es : List Bytes) × (parse_refresh_token ℕ kind scan mac parser issued.encoded_token
        (calm after_issue)
      ≡ (
        calm after_issue,
        ok (issued, record { group = group; access_caveats = es }, access.caveats),
      ))
parse_refresh_token-create_refresh_token_example =
    parse_refresh_token-create_refresh_token ℕ kind scan mac name 100 parser key group access 50
      (calm stored) after_issue after_issue issued mac-AreBytes (user-IsReadable, tt) only_carried
      refresh_issued (omega arith) key_issued

abbrev credentials_of : Reply Credentials → Credentials
credentials_of (ok c) = c
credentials_of (fail e) = record { access_token = []; refresh_token = [] }

abbrev first : World × Reply Credentials
first =
    refresh_token ℕ kind scan mac name 100 (ok key) (ok key) 0 0 parser
      refresh_macaroon.encoded_token (calm stored)

done : succeeded first.1 ≡ true
unfolding refresh_token parse_refresh_token parse_access create_refresh_token encode_access
    create_access_token create_token invalidate_tokens_by_group delete_group_keys delete_opaque_keys
    invalidate_token delete_key delete_opaque_key statement parse_caveat decode_caveat decode encode
    retrieve_from_json retrieve_loop bytes_eq lookup run_transaction create_opaque_key create_key
done = rw refresh_parsed refl

its_credentials :
    (out : World × Reply Credentials)
    → succeeded out.1 ≡ true
    → out ≡ (out.0, ok (credentials_of out.1))
its_credentials (w, ok c) h = refl
its_credentials (w, fail e) h = absurd (ground (arith, h))

refresh_token-once_example :
    succeeded
      (refresh_token ℕ kind scan mac name 100
        (ok key)
        (ok key)
        0
        0
        parser
        refresh_macaroon.encoded_token
        first.0).1
    ≡ false
refresh_token-once_example =
    refresh_token-once ℕ kind scan mac name 100 parser (ok key) (ok key) 0 0
      refresh_macaroon.encoded_token stored first.0 (credentials_of first.1) (ground arith, tt)
      (its_credentials first done)
