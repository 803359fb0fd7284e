-- ===== src/Tests/Macaroons.antt =====
-- Examples for pkg/macaroons/macaroons.go, with a toy hash and a toy JSON.
use anclax.Prelude.{ℕ, ◌+◌, ◌%◌, ◌≡◌, ◌≢◌, refl, true, List, [], ◌∷◌, ◌++◌, some, arith}
use anclax.Prelude.Int.{pos, int_eq}
use anclax.Prelude.Dict.{lookup}
use anclax.Text.{Bytes, bytes_eq, bytes_Eq}
use anclax.Text.Base64.{AreBytes, encode}
use anclax.Db.{World, ok, statement}
use anclax.Db.Keys.{find_key, delete_keys, delete_opaque_keys, all_in_group}
use anclax.Db.Effects.{calm}
use anclax.Macaroons.{
  Library, Macaroon, CaveatParser, JsonToken, type_key, retrieve_from_json, retrieve_loop,
  encode_caveat, encode_caveats, create_macaroon, add_caveat,
}
use anclax.Macaroons.Manager.{parse, delete_group_keys, invalidate_tokens_by_group}
use anclax.Macaroons.Chain.{over, add_caveat-create_macaroon}
use anclax.Macaroons.RoundTrip.{IsReadable, AllReadable, parse-create_macaroon}
use anclax.Macaroons.Sound.{IsAuthentic, parse-IsAuthentic}
use anclax.Macaroons.Revoked.{parse-invalidate_group}
use anclax.Tests.Store.{world_of}

unfoldable pub checksum : Bytes → ℕ
checksum [] = 1
checksum (c ∷ s) = c + checksum s

abbrev pub mac : Bytes → Bytes → Bytes
mac key content = (checksum key + checksum content) % 256 ∷ []

-- Every caveat is of the type "k", and is its own JSON.
abbrev kind : Bytes
kind = b'k' ∷ []

abbrev toy : Library
toy = record {
  Caveat = Bytes;
  marshal = λ c. ok c;
  tokens = λ raw.
      JsonToken.open_delim
      ∷ JsonToken.text type_key
      ∷ JsonToken.text kind
      ∷ JsonToken.close_delim
      ∷ [];
  hmac_sha256 = mac;
}

abbrev parser : CaveatParser toy
parser = (kind, λ raw. ok raw) ∷ []

abbrev caveats : List Bytes
caveats = (b'a' ∷ b'b' ∷ []) ∷ (b'c' ∷ []) ∷ []

abbrev key : Bytes
key = 1 ∷ 2 ∷ 3 ∷ []

abbrev token : Macaroon toy
token = over toy (pos 5) key caveats (encode (b'a' ∷ b'b' ∷ []) ∷ encode (b'c' ∷ []) ∷ [])

abbrev stored : World
stored = record (world_of []) {
  db = record (world_of []).db {
    opaque_keys = record { id = pos 5; group = some (b'g' ∷ []); key = key } ∷ [];
  };
}

made : create_macaroon toy (pos 5) key caveats ≡ ok token
unfolding create_macaroon encode_caveats encode_caveat
made = refl

has_kind : (raw : Bytes) → retrieve_from_json (toy.tokens raw) type_key ≡ ok kind
unfolding retrieve_from_json retrieve_loop bytes_eq
has_kind raw = refl

kind-registered : lookup kind parser ≡ some (λ raw. ok raw)
unfolding lookup bytes_eq
kind-registered = refl

readable : (c : Bytes) → AreBytes c → IsReadable toy parser c
readable c h = record {
  raw = c;
  typ = kind;
  constructor = λ raw. ok raw;
  marshals = refl;
  bytes = h;
  has_type = has_kind c;
  registered = kind-registered;
  constructs = refl;
}

all_readable : AllReadable toy parser caveats
all_readable = (
  readable (b'a' ∷ b'b' ∷ []) (omega arith, (omega arith, tt)),
  (readable (b'c' ∷ []) (omega arith, tt), tt),
)

pub mac-AreBytes : (k t : Bytes) → AreBytes (mac k t)
mac-AreBytes k t = (omega arith, tt)

key_there : find_key (pos 5) stored.db.opaque_keys ≡ some key
unfolding find_key int_eq
key_there = refl

parsed : parse toy parser token.encoded_token (calm stored) ≡ (calm stored, ok token)
parsed =
    parse-create_macaroon toy parser (pos 5) key caveats token stored (omega arith) mac-AreBytes
      all_readable made key_there

parse-create_macaroon_example :
    parse toy parser token.encoded_token (calm stored) ≡ (calm stored, ok token)
parse-create_macaroon_example =
    parse-create_macaroon toy parser (pos 5) key caveats token stored (omega arith) mac-AreBytes
      all_readable made key_there

parse-IsAuthentic_example : IsAuthentic toy parser (calm stored) token.encoded_token token
parse-IsAuthentic_example =
    parse-IsAuthentic toy parser token.encoded_token (calm stored) (calm stored) token parsed

add_caveat-create_macaroon_example :
    add_caveat toy (b'd' ∷ []) token ≡ create_macaroon toy (pos 5) key (caveats ++ (b'd' ∷ []) ∷ [])
add_caveat-create_macaroon_example =
    add_caveat-create_macaroon toy (pos 5) key caveats (b'd' ∷ []) token made

-- Key 4, of the group "h", next to the key of the token.
abbrev two_keys : World
two_keys = record stored {
  db = record stored.db {
    opaque_keys =
        record { id = pos 4; group = some (b'h' ∷ []); key = 9 ∷ [] } ∷ stored.db.opaque_keys;
  };
}

two_in_group : all_in_group (pos 4) (b'h' ∷ []) two_keys.db.opaque_keys ≡ true
unfolding all_in_group int_eq bytes_eq
two_in_group = refl

parsed_after_group :
    parse toy parser token.encoded_token (invalidate_tokens_by_group (b'h' ∷ []) (calm two_keys)).0
    ≡ (calm stored, ok token)
unfolding invalidate_tokens_by_group delete_group_keys delete_opaque_keys statement delete_keys
    bytes_eq
parsed_after_group = parsed

parse-invalidate_group_example : token.key_id ≢ pos 4
parse-invalidate_group_example =
    parse-invalidate_group toy parser b'h' [] (pos 4) token.encoded_token two_keys (calm stored)
      token two_in_group parsed_after_group
