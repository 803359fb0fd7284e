-- ===== src/Macaroons/Sound.antt =====
-- What a parsed token shows, and the tokens of deleted keys: pkg/macaroons/macaroons.go and
-- pkg/macaroons/store/store.go.
use anclax.Prelude.{
  ◌≡◌, refl, sym, ap, ◌∙◌, subst, List, [], ◌∷◌, ◌++◌, Option, none, some, arith, inl, inr, String,
  Bool-cases, Option-cases,
}
use anclax.Prelude.Int.{ℤ}
use anclax.Text.{Bytes, bytes_eq, bytes_eq_iff, split}
use anclax.Text.Base64.{decode}
use anclax.Text.Decimal.{parse_int}
use anclax.Errors.{Err, Sentinel, errors_is}
use anclax.Db.{World, Reply-cases, ok, throw}
use anclax.Db.Keys.{find_key, found_key, get_opaque_key}
use anclax.Db.Effects.Failing.{statement-ok}
use anclax.Db.Effects.Succeeding.{after-ok, recover-ok, Throws, Throws-wrap}
use anclax.Store.{wrapped, lift}
use anclax.Macaroons.{Library, Macaroon, CaveatParser, chained_hmac, verify, parse_caveats}
use anclax.Macaroons.Manager.{parse, parse_parts, parse_split, init_last, get_key, key_missing}

Throws-key_missing : {A : Type 0} (what : String) → Throws {A = A} (key_missing what)
Throws-key_missing what e w w' a h = elim (Bool-cases (errors_is e Sentinel.no_rows)) [
  | inl c ↦ ground (arith, c, ap (λ x. x.1) h)
  | inr c ↦ ground (arith, c, ap (λ x. x.1) h)
]

found_key-ok : (o : Option Bytes) (key : Bytes) → found_key o ≡ ok key → o ≡ some key
found_key-ok none key h = absurd (ground (arith, h))
found_key-ok (some k) key h = ground (arith, h)

-- A key that the store returns is there.
get_key-ok :
    (id : ℤ) (w w' : World) (key : Bytes)
    → get_key id w ≡ (w', ok key)
    → find_key id w.db.opaque_keys ≡ some key
unfolding get_key get_opaque_key
get_key-ok id w w' key h =
    let got =
      recover-ok (get_opaque_key id w) (key_missing "failed to get key") w' key
        (Throws-key_missing "failed to get key") h in
    let (rest, e) =
      statement-ok (λ w. (w, found_key (find_key id w.db.opaque_keys))) w key (ap (λ x. x.1) got) in
    found_key-ok (find_key id w.db.opaque_keys) key (ap (λ x. x.1) (sym e ∙ got))

init_last-append :
    (q : Bytes) (ps : List Bytes) → (init_last q ps).0 ++ (init_last q ps).1 ∷ [] ≡ q ∷ ps
unfolding init_last
init_last-append q [] = refl
init_last-append q (p ∷ ps) = ap (λ (r : List Bytes). q ∷ r) (init_last-append p ps)

module _ (lib : Library) (parser : CaveatParser lib) where
  -- The token is signed with the key that is stored under the macaroon's id.
  pub record IsAuthentic (w : World) (token : Bytes) (m : Macaroon lib) : Type 0 where
    pub key : Bytes
    pub first : Bytes
    pub header : Bytes
    pub parts : List Bytes
    pub last : Bytes
    pub splits : split b'.' token ≡ first ∷ (parts ++ last ∷ [])
    pub header_of : decode first ≡ some header
    pub names : parse_int header ≡ some m.key_id
    pub stored : find_key m.key_id w.db.opaque_keys ≡ some key
    pub sealed : decode last ≡ some (chained_hmac lib key first parts)
    pub caveats_of : parse_caveats lib parser parts ≡ ok m.caveats
    pub whole : m.encoded_token ≡ token

  -- What verify checks.
  verify-ok :
      (token : Bytes) (id : ℤ) (first : Bytes) (parts : List Bytes) (last key : Bytes)
      (m : Macaroon lib)
      → verify lib parser token id first parts last key ≡ ok m
      → (m.key_id ≡ id)
        × (m.encoded_token ≡ token)
        × (decode last ≡ some (chained_hmac lib key first parts))
        × (parse_caveats lib parser parts ≡ ok m.caveats)
  unfolding verify
  verify-ok token id first parts last key m h = elim (Option-cases (decode last)) [
    | inl e ↦ absurd (ground (arith, rw e at h))
    | inr (s, e) ↦ elim (Bool-cases (bytes_eq s (chained_hmac lib key first parts))) [
      | inr f ↦ absurd (ground (arith, rw f at (rw e at h)))
      | inl f ↦ elim (Reply-cases (parse_caveats lib parser parts)) [
        | inr (x, g) ↦ absurd (ground (arith, rw g at (rw f at (rw e at h))))
        | inl (cs, g) ↦
            (let made = rw g at (rw f at (rw e at h)) in
              (
                ground (arith, made),
                ground (arith, made),
                e ∙ ap some ((bytes_eq_iff s (chained_hmac lib key first parts)).0 f),
                g ∙ ground (arith, made),
              ))
      ]
    ]
  ]

  parse_parts-ok :
      (token first : Bytes) (parts : List Bytes) (last : Bytes) (w w' : World) (m : Macaroon lib)
      → parse_parts lib parser token first parts last w ≡ (w', ok m)
      → split b'.' token ≡ first ∷ (parts ++ last ∷ [])
      → IsAuthentic w token m
  unfolding parse_parts
  parse_parts-ok token first parts last w w' m h s = elim (Option-cases (decode first)) [
    | inl e ↦ absurd (ground (arith, ap (λ x. x.1) (rw e at h)))
    | inr (header, e) ↦ elim (Option-cases (parse_int header)) [
      | inl f ↦ absurd (ground (arith, ap (λ x. x.1) (rw f at (rw e at h))))
      | inr (id, f) ↦
          (let (w1, key, got, k) =
              after-ok (wrapped "failed to get key" (get_key id) w)
                (λ key. lift (verify lib parser token id first parts last key)) w' m
                (rw f at (rw e at h)) in
            let (same, whole, sealed, read) =
              verify-ok token id first parts last key m (ap (λ x. x.1) k) in
            record {
              key = key;
              first = first;
              header = header;
              parts = parts;
              last = last;
              splits = s;
              header_of = e;
              names = f ∙ ap some (sym same);
              stored =
                  subst (λ i. find_key i w.db.opaque_keys ≡ some key) (sym same)
                    (get_key-ok id w w1 key (
                      recover-ok (get_key id w) (λ e. throw (Err.wrap "failed to get key" e)) w1 key
                        (Throws-wrap "failed to get key") got));
              sealed = sealed;
              caveats_of = read;
              whole = whole;
            })
    ]
  ]

  -- A token that is parsed, whatever the state of the database: it is the caveats and the id of the
  -- macaroon with a signature that is the chained hash of the id and the caveats under the key that is
  -- stored for the id.
  pub parse-IsAuthentic :
      (token : Bytes) (w w' : World) (m : Macaroon lib)
      → parse lib parser token w ≡ (w', ok m)
      → IsAuthentic w token m
  unfolding parse
  parse-IsAuthentic token w w' m h = go (split b'.' token) refl h
    where
      go :
          (ps : List Bytes)
          → split b'.' token ≡ ps
          → parse_split lib parser token ps w ≡ (w', ok m)
          → IsAuthentic w token m
      go [] e k = absurd (ground (arith, ap (λ x. x.1) k))
      go (p ∷ []) e k = absurd (ground (arith, ap (λ x. x.1) k))
      go (p ∷ q ∷ ps) e k =
          parse_parts-ok token p (init_last q ps).0 (init_last q ps).1 w w' m k
            (e ∙ ap (λ (r : List Bytes). p ∷ r) (sym (init_last-append q ps)))
