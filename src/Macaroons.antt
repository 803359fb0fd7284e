-- ===== src/Macaroons.antt =====
-- Macaroon tokens: pkg/macaroons/macaroons.go, caveats.go and RetrieveFromJSON of pkg/utils/utils.go.
-- The JSON of a caveat, which each caveat type has its own of, and the keyed hash are a parameter.
pub mod Manager
pub mod Chain
pub mod RoundTrip
pub mod Sound
pub mod Revoked
pub mod Fresh
use anclax.Prelude.{
  String, ℕ, ◌≡◌, Bool, true, false, List, [], ◌∷◌, ◌++◌, Option, none, some, if◌then◌else◌,
}
use anclax.Prelude.Int.{ℤ}
use anclax.Prelude.Dict.{lookup, insert}
use anclax.Text.{Bytes, bytes_eq, bytes_Eq, split, join_after, trim_suffix}
use anclax.Text.Base64.{encode, decode}
use anclax.Text.Decimal.{format_int, parse_int}
use anclax.Errors.{Err, Sentinel}
use anclax.Db.{Reply, ok, fail}

-- What `json.Decoder.Token` returns one after another; `bad` is where it fails.
pub data JsonToken : Type 0 where
  open_delim : JsonToken
  close_delim : JsonToken
  text : Bytes → JsonToken
  value : JsonToken
  bad : JsonToken

abbrev missing_attribute : {A : Type 0} → Reply A
missing_attribute = fail (Err.message "missing attribute")

abbrev decoder_failed : {A : Type 0} → Reply A
decoder_failed = fail (Err.message "invalid JSON")

-- The loop of RetrieveFromJSON: a token that is not the key is taken for one, and the token after it
-- is skipped as its value.
unfoldable pub retrieve_loop : Bytes → List JsonToken → Reply Bytes
retrieve_loop key [] = missing_attribute
retrieve_loop key (JsonToken.close_delim ∷ ts) = missing_attribute
retrieve_loop key (JsonToken.bad ∷ ts) = decoder_failed
retrieve_loop key (t ∷ []) = decoder_failed
retrieve_loop key (t ∷ JsonToken.bad ∷ ts) = decoder_failed
retrieve_loop key (JsonToken.text k ∷ JsonToken.text v ∷ ts) =
    let rest = retrieve_loop key ts in if bytes_eq k key then ok v else rest
retrieve_loop key (t ∷ v ∷ ts) = retrieve_loop key ts

unfoldable pub retrieve_from_json : List JsonToken → Bytes → Reply Bytes
unfolding retrieve_loop
retrieve_from_json [] key = decoder_failed
retrieve_from_json (JsonToken.bad ∷ ts) key = decoder_failed
retrieve_from_json (t ∷ ts) key = retrieve_loop key ts

abbrev decoded : Option Bytes → Reply Bytes
decoded none = fail (Err.message "illegal base64 data")
decoded (some raw) = ok raw

abbrev pub malformed : {A : Type 0} → String → Reply A
malformed what = fail (Err.wrap what (Err.sentinel Sentinel.malformed_token))

abbrev pub decode_or : {A : Type 0} → String → Option A → Reply A
decode_or what none = malformed what
decode_or what (some a) = ok a

-- What the code takes from the JSON library, the caveat types and the hash. A caveat constructor comes
-- with the decoding of JSON into the value that it makes.
pub record Library : Type 1 where
  pub Caveat : Type 0
  pub marshal : Caveat → Reply Bytes
  pub tokens : Bytes → List JsonToken
  pub hmac_sha256 : Bytes → Bytes → Bytes

infixl 5 ◌>>=◌
abbrev pub ◌>>=◌ : {A B : Type 0} → Reply A → (A → Reply B) → Reply B
ok a >>= f = f a
fail e >>= f = fail e

abbrev pub wrap_reply : {A : Type 0} → String → Reply A → Reply A
wrap_reply what (ok a) = ok a
wrap_reply what (fail e) = fail (Err.wrap what e)

abbrev dot : ℕ
dot = b'.'

-- "type".
abbrev pub type_key : Bytes
type_key = b't' ∷ b'y' ∷ b'p' ∷ b'e' ∷ []

module _ (lib : Library) where
  open lib use {Caveat, marshal, tokens, hmac_sha256}

  abbrev pub CaveatConstructor : Type 0
  CaveatConstructor = Bytes → Reply Caveat

  abbrev pub CaveatParser : Type 0
  CaveatParser = List (Bytes × CaveatConstructor)

  unfoldable pub register : Bytes → CaveatConstructor → CaveatParser → Reply CaveatParser
  register typ v parser = elim (lookup typ parser) [
    | some old ↦ fail (Err.message "caveat type already registered")
    | none ↦ ok (insert typ v parser)
  ]

  unfoldable pub encode_caveat : Caveat → Reply Bytes
  encode_caveat c = marshal c >>= λ raw. ok (encode raw)

  abbrev constructor_of : Option CaveatConstructor → Reply CaveatConstructor
  constructor_of none = fail (Err.message "unknown caveat type")
  constructor_of (some constructor) = ok constructor

  unfoldable pub decode_caveat : Bytes → CaveatConstructor → Reply Caveat
  decode_caveat s constructor = decoded (decode s) >>= constructor

  unfoldable pub parse_caveat : CaveatParser → Bytes → Reply Caveat
  unfolding retrieve_from_json decode_caveat
  parse_caveat parser s = do
    raw ← wrap_reply "failed to decode base64 encoded caveat" (decoded (decode s))
    typ ← retrieve_from_json (tokens raw) type_key
    constructor ← constructor_of (lookup typ parser)
    decode_caveat s constructor

  pub record Macaroon : Type 0 where
    pub caveats : List Caveat
    pub key_id : ℤ
    pub signature : Bytes
    pub encoded_token : Bytes
    pub encoded_token_no_sig : Bytes

  -- Writing into a hash returns no error.
  unfoldable pub sign : Bytes → Bytes → Bytes
  sign key content = hmac_sha256 key content

  unfoldable pub chain : Bytes → List Bytes → Bytes
  unfolding sign
  chain key [] = key
  chain key (part ∷ parts) = chain (sign key part) parts

  unfoldable pub chained_hmac : Bytes → Bytes → List Bytes → Bytes
  unfolding chain
  chained_hmac key encoded_key_id encoded_caveats = chain key (encoded_key_id ∷ encoded_caveats)

  unfoldable pub encode_caveats : List Caveat → Reply (List Bytes)
  unfolding encode_caveat
  encode_caveats [] = ok []
  encode_caveats (c ∷ cs) = do
    encoded ← wrap_reply "failed to encode caveat" (encode_caveat c)
    rest ← encode_caveats cs
    ok (encoded ∷ rest)

  -- The macaroon of a signature over the parts in front of it.
  abbrev pub signed : ℤ → List Caveat → Bytes → Bytes → Macaroon
  signed key_id caveats token signature = record {
    caveats = caveats;
    key_id = key_id;
    signature = signature;
    encoded_token = token ++ dot ∷ encode signature;
    encoded_token_no_sig = token;
  }

  unfoldable pub create_macaroon : ℤ → Bytes → List Caveat → Reply Macaroon
  unfolding encode_caveats join_after chained_hmac
  create_macaroon key_id key caveats =
      let encoded_key_id = encode (format_int key_id) in
      encode_caveats caveats >>= λ encoded_caveats. ok (
        signed key_id caveats (join_after dot encoded_key_id encoded_caveats)
          (chained_hmac key encoded_key_id encoded_caveats))

  unfoldable pub add_caveat : Caveat → Macaroon → Reply Macaroon
  unfolding encode_caveat sign
  add_caveat c m = wrap_reply "failed to encode caveat" (encode_caveat c) >>= λ encoded. ok (
      signed m.key_id (m.caveats ++ c ∷ []) (m.encoded_token_no_sig ++ dot ∷ encoded)
        (sign m.signature encoded))

  abbrev and_rest : Reply Caveat → Reply (List Caveat) → Reply (List Caveat)
  and_rest (fail e) rest = fail e
  and_rest (ok c) (fail e) = fail e
  and_rest (ok c) (ok cs) = ok (c ∷ cs)

  unfoldable pub parse_caveats : CaveatParser → List Bytes → Reply (List Caveat)
  unfolding parse_caveat
  parse_caveats parser [] = ok []
  parse_caveats parser (part ∷ parts) =
      and_rest (wrap_reply "failed to parse caveat" (parse_caveat parser part))
        (parse_caveats parser parts)

  -- hmac.Equal.
  abbrev pub check_signature : Bytes → Bytes → Reply (Unit {0})
  check_signature signature calculated =
      if bytes_eq signature calculated
      then ok tt
      else fail (Err.sentinel Sentinel.invalid_signature)

  -- The signature and the caveats, once the key is known.
  unfoldable pub verify :
      CaveatParser → Bytes → ℤ → Bytes → List Bytes → Bytes → Bytes → Reply Macaroon
  unfolding chained_hmac parse_caveats bytes_eq
  verify parser token key_id encoded_key_id encoded_caveats encoded_signature key = do
    signature ← decode_or "failed to decode signature" (decode encoded_signature)
    checked ← check_signature signature (chained_hmac key encoded_key_id encoded_caveats)
    caveats ← parse_caveats parser encoded_caveats
    ok (record {
      key_id = key_id;
      caveats = caveats;
      signature = signature;
      encoded_token_no_sig = trim_suffix token (dot ∷ encoded_signature);
      encoded_token = token;
    })
