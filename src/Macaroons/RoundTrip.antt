-- ===== src/Macaroons/RoundTrip.antt =====
-- A token that was created is parsed: pkg/macaroons/macaroons.go and caveats.go.
use anclax.Prelude.{ℕ, ◌≡◌, refl, true, sym, ap, ◌∙◌, subst, List, [], ◌∷◌, ◌++◌, some, arith}
use anclax.Prelude.Int.{ℤ}
use anclax.Prelude.Dict.{lookup}
use anclax.Text.{
  Bytes, bytes_Eq, bytes_eq_iff, AllLack, lacks, split, split-join_after, join_after-snoc,
  trim_suffix-append,
}
use anclax.Text.Base64.{encode, AreBytes, decode-encode, lacks_dot-encode}
use anclax.Text.Decimal.{format_int, IsInt64, parse_int-format_int, AreBytes-format_int}
use anclax.Db.{World, ok, statement}
use anclax.Db.Effects.{calm}
use anclax.Db.Keys.{find_key, get_opaque_key}
use anclax.Db
use anclax.Macaroons.{
  Library, Macaroon, CaveatParser, CaveatConstructor, type_key, retrieve_from_json, encode_caveat,
  encode_caveats, parse_caveat, create_macaroon, chained_hmac, decode_caveat, chain, sign,
  parse_caveats,
}
use anclax.Macaroons.Chain.{over}
use anclax.Macaroons.Manager.{parse, parse_parts, parse_split, init_last, get_key}

-- What a caveat's JSON has to give back: bytes with the type in them, and the value by the constructor
-- that is registered for that type.
pub record IsReadable (lib : Library) (parser : CaveatParser lib) (c : lib.Caveat) : Type 0 where
  pub raw : Bytes
  pub typ : Bytes
  pub constructor : CaveatConstructor lib
  pub marshals : lib.marshal c ≡ Db.ok raw
  pub bytes : AreBytes raw
  pub has_type : retrieve_from_json (lib.tokens raw) type_key ≡ Db.ok typ
  pub registered : lookup typ parser ≡ some constructor
  pub constructs : constructor raw ≡ Db.ok c

abbrev pub AllReadable : (lib : Library) → CaveatParser lib → List lib.Caveat → Type 0
AllReadable lib parser [] = Unit {0}
AllReadable lib parser (c ∷ cs) = IsReadable lib parser c × AllReadable lib parser cs

init_last-snoc :
    (part : Bytes) (parts : List Bytes) (last : Bytes)
    → init_last part (parts ++ last ∷ []) ≡ (part ∷ parts, last)
unfolding init_last
init_last-snoc part [] last = refl
init_last-snoc part (p ∷ parts) last = rw (init_last-snoc p parts last) refl

module _ (lib : Library) (parser : CaveatParser lib) where
  open lib use {Caveat, hmac_sha256}

  pub parse_caveat-encode_caveat :
      (c : Caveat)
      → IsReadable lib parser c
      → (s : Bytes) × (encode_caveat lib c ≡ ok s)
        × (lacks b'.' s ≡ true)
        × (parse_caveat lib parser s ≡ ok c)
  unfolding encode_caveat parse_caveat decode_caveat
  parse_caveat-encode_caveat c r = (
    encode r.raw,
    rw r.marshals refl,
    lacks_dot-encode r.raw,
    rw (decode-encode r.raw r.bytes) (rw r.has_type (rw r.registered r.constructs)),
  )

  parse_caveats-encode_caveats :
      (cs : List Caveat)
      → AllReadable lib parser cs
      → (es : List Bytes) × (encode_caveats lib cs ≡ ok es)
        × AllLack b'.' es
        × (parse_caveats lib parser es ≡ ok cs)
  unfolding encode_caveats parse_caveats
  parse_caveats-encode_caveats [] h = ([], refl, tt, refl)
  parse_caveats-encode_caveats (c ∷ cs) h =
      let (s, e, dotless, back) = parse_caveat-encode_caveat c h.0 in
      let (es, es_e, all_dotless, all_back) = parse_caveats-encode_caveats cs h.1 in
      (s ∷ es, rw (e, es_e) refl, (dotless, all_dotless), rw (back, all_back) refl)

  parse_split-snoc :
      (token first : Bytes) (es : List Bytes) (last : Bytes)
      → parse_split lib parser token (first ∷ (es ++ last ∷ []))
        ≡ parse_parts lib parser token first es last
  unfolding init_last
  parse_split-snoc token first [] last = refl
  parse_split-snoc token first (e ∷ es) last = rw (init_last-snoc e es last) refl

  AreBytes-chain :
      ((k t : Bytes) → AreBytes (hmac_sha256 k t))
      → (key part : Bytes) (parts : List Bytes) → AreBytes (chain lib key (part ∷ parts))
  unfolding chain sign
  AreBytes-chain hash key part [] = hash key part
  AreBytes-chain hash key part (p ∷ parts) = AreBytes-chain hash (hmac_sha256 key part) p parts

  AreBytes-chained_hmac :
      ((k t : Bytes) → AreBytes (hmac_sha256 k t))
      → (key first : Bytes) (es : List Bytes) → AreBytes (chained_hmac lib key first es)
  unfolding chained_hmac
  AreBytes-chained_hmac hash key first es = AreBytes-chain hash key first es

  parse_parts-over :
      (id : ℤ) (key : Bytes) (cs : List Caveat) (es : List Bytes) (w : World)
      → IsInt64 id
      → ((k t : Bytes) → AreBytes (hmac_sha256 k t))
      → find_key id w.db.opaque_keys ≡ some key
      → parse_caveats lib parser es ≡ ok cs
      → parse_parts lib parser
          (over lib id key cs es).encoded_token
          (encode (format_int id))
          es
          (encode (over lib id key cs es).signature)
          (calm w)
        ≡ (calm w, ok (over lib id key cs es))
  unfolding parse_parts get_key get_opaque_key statement
  parse_parts-over id key cs es w small hash here back =
      let sig = (over lib id key cs es).signature in
      rw (decode-encode (format_int id) (AreBytes-format_int id)) (
        rw (parse_int-format_int id small) (
          rw here (
            rw (decode-encode sig (AreBytes-chained_hmac hash key (encode (format_int id)) es)) (
              rw ((bytes_eq_iff sig sig).1 refl) (
                rw back (
                  rw
                    (trim_suffix-append (over lib id key cs es).encoded_token_no_sig
                      (b'.' ∷ encode sig))
                    refl))))))

  AllLack-snoc :
      (sep : ℕ) (parts : List Bytes) (part : Bytes)
      → AllLack sep parts
      → lacks sep part ≡ true
      → AllLack sep (parts ++ part ∷ [])
  AllLack-snoc sep [] part h k = (k, tt)
  AllLack-snoc sep (p ∷ parts) part h k = (h.0, AllLack-snoc sep parts part h.1 k)

  split-over :
      (id : ℤ) (key : Bytes) (cs : List Caveat) (es : List Bytes)
      → AllLack b'.' es
      → split b'.' (over lib id key cs es).encoded_token
        ≡ encode (format_int id) ∷ (es ++ encode (over lib id key cs es).signature ∷ [])
  split-over id key cs es dotless =
      let first = encode (format_int id) in
      let last = encode (over lib id key cs es).signature in
      ap (split b'.') (sym (join_after-snoc b'.' first es last))
      ∙ split-join_after b'.' first (es ++ last ∷ []) (lacks_dot-encode (format_int id))
          (AllLack-snoc b'.' es last dotless (lacks_dot-encode (over lib id key cs es).signature))

  create_macaroon-over :
      (id : ℤ) (key : Bytes) (cs : List Caveat) (es : List Bytes)
      → encode_caveats lib cs ≡ ok es
      → create_macaroon lib id key cs ≡ ok (over lib id key cs es)
  unfolding create_macaroon
  create_macaroon-over id key cs es h = rw h refl

  -- A macaroon that was created by a key that is still stored, of caveats whose JSON can be read back:
  -- its token is parsed to that same macaroon, when no statement fails.
  pub parse-create_macaroon :
      (id : ℤ) (key : Bytes) (cs : List Caveat) (m : Macaroon lib) (w : World)
      → IsInt64 id
      → ((k t : Bytes) → AreBytes (hmac_sha256 k t))
      → AllReadable lib parser cs
      → create_macaroon lib id key cs ≡ ok m
      → find_key id w.db.opaque_keys ≡ some key
      → parse lib parser m.encoded_token (calm w) ≡ (calm w, ok m)
  unfolding parse
  parse-create_macaroon id key cs m w small hash readable made here =
      let (es, e, dotless, back) = parse_caveats-encode_caveats cs readable in
      subst (λ n. parse lib parser n.encoded_token (calm w) ≡ (calm w, ok n))
        (ground (arith, made, create_macaroon-over id key cs es e))
        (ap (λ parts. parse_split lib parser (over lib id key cs es).encoded_token parts (calm w))
            (split-over id key cs es dotless)
          ∙ ap (λ act. act (calm w))
              (parse_split-snoc (over lib id key cs es).encoded_token (encode (format_int id)) es
                (encode (over lib id key cs es).signature))
          ∙ parse_parts-over id key cs es w small hash here back)
