-- ===== src/Macaroons/Chain.antt =====
-- A caveat added to a macaroon: pkg/macaroons/macaroons.go.
use anclax.Prelude.{◌≡◌, refl, ap, List, [], ◌∷◌, ◌++◌, inl, inr, arith, subst}
use anclax.Prelude.Int.{ℤ}
use anclax.Text.{Bytes, join_after, join_after-snoc}
use anclax.Text.Base64.{encode}
use anclax.Text.Decimal.{format_int}
use anclax.Db.{Reply, ok, fail, Reply-cases}
use anclax.Macaroons.{
  Library, Macaroon, chain, sign, chained_hmac, encode_caveat, encode_caveats, create_macaroon,
  add_caveat, wrap_reply, ◌>>=◌, signed,
}

module _ (lib : Library) where
  open lib use {Caveat}

  chain-snoc :
      (key : Bytes) (parts : List Bytes) (part : Bytes)
      → chain lib key (parts ++ part ∷ []) ≡ sign lib (chain lib key parts) part
  unfolding chain
  chain-snoc key [] part = refl
  chain-snoc key (p ∷ parts) part = chain-snoc (sign lib key p) parts part

  bind-snoc :
      (r : Reply Bytes) (x : Bytes) (ys es : List Bytes)
      → x ∷ ys ≡ es
      → ((r >>= λ e. ok (ys ++ e ∷ [])) >>= λ rest. ok (x ∷ rest)) ≡ (r >>= λ e. ok (es ++ e ∷ []))
  bind-snoc (ok e) x ys es h = ap (λ (zs : List Bytes). ok (zs ++ e ∷ [])) h
  bind-snoc (fail e) x ys es h = refl

  -- One caveat more behind those that encode.
  encode_caveats-snoc :
      (cs : List Caveat) (es : List Bytes) (c : Caveat)
      → encode_caveats lib cs ≡ ok es
      → encode_caveats lib (cs ++ c ∷ [])
        ≡ (wrap_reply "failed to encode caveat" (encode_caveat lib c) >>= λ e. ok (es ++ e ∷ []))
  unfolding encode_caveats
  encode_caveats-snoc [] es c h = elim (Reply-cases (encode_caveat lib c)) [
    | inl (x, e) ↦ rw e (ground (arith, h))
    | inr (x, e) ↦ rw e refl
  ]
  encode_caveats-snoc (d ∷ cs) es c h = elim (Reply-cases (encode_caveat lib d)) [
    | inr (x, e) ↦ absurd (ground (arith, h, e))
    | inl (x, e) ↦ elim (Reply-cases (encode_caveats lib cs)) [
      | inr (y, f) ↦ absurd (ground (arith, h, e, f))
      | inl (ys, f) ↦
          rw (e, encode_caveats-snoc cs ys c f)
            (bind-snoc (wrap_reply "failed to encode caveat" (encode_caveat lib c)) x ys es
              (ground (arith, h, e, f)))
    ]
  ]

  -- The macaroon over encoded caveats.
  abbrev pub over : ℤ → Bytes → List Caveat → List Bytes → Macaroon lib
  over id key cs es =
      signed lib id cs (join_after b'.' (encode (format_int id)) es)
        (chained_hmac lib key (encode (format_int id)) es)

  pub create_macaroon-ok :
      (id : ℤ) (key : Bytes) (cs : List Caveat) (m : Macaroon lib)
      → create_macaroon lib id key cs ≡ ok m
      → (es : List Bytes) × (encode_caveats lib cs ≡ ok es) × (over id key cs es ≡ m)
  unfolding create_macaroon
  create_macaroon-ok id key cs m h = elim (Reply-cases (encode_caveats lib cs)) [
    | inl (es, e) ↦ (es, e, ground (arith, h, e))
    | inr (x, e) ↦ absurd (ground (arith, h, e))
  ]

  add_caveat-over :
      (id : ℤ) (key : Bytes) (cs : List Caveat) (es : List Bytes) (c : Caveat)
      → encode_caveats lib cs ≡ ok es
      → add_caveat lib c (over id key cs es) ≡ create_macaroon lib id key (cs ++ c ∷ [])
  unfolding add_caveat create_macaroon chained_hmac
  add_caveat-over id key cs es c h =
      rw (encode_caveats-snoc cs es c h) (elim (Reply-cases (encode_caveat lib c)) [
        | inr (x, e) ↦ rw e refl
        | inl (x, e) ↦
            rw
              (
                e,
                join_after-snoc b'.' (encode (format_int id)) es x,
                chain-snoc (sign lib key (encode (format_int id))) es x,
              )
              refl
      ])

  -- Adding a caveat to a created macaroon is creating it with the caveat at the end, whether the caveat
  -- encodes or not: the two return the same macaroon, signature and token included, or the same error.
  pub add_caveat-create_macaroon :
      (id : ℤ) (key : Bytes) (cs : List Caveat) (c : Caveat) (m : Macaroon lib)
      → create_macaroon lib id key cs ≡ ok m
      → add_caveat lib c m ≡ create_macaroon lib id key (cs ++ c ∷ [])
  add_caveat-create_macaroon id key cs c m h =
      let (es, e, made) = create_macaroon-ok id key cs m h in
      subst (λ n. add_caveat lib c n ≡ create_macaroon lib id key (cs ++ c ∷ [])) made
        (add_caveat-over id key cs es c e)
