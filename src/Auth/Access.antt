-- ===== src/Auth/Access.antt =====
-- Which requests a token lets through, and as whom: pkg/auth/auth.go and caveats.go.
use anclax.Prelude.{
  ◌≡◌, refl, ap, ◌∙◌, inl, inr, Bool, true, false, List, [], ◌∷◌, none, some, arith, String, subst,
  Bool-cases,
}
use anclax.Prelude.Int.{ℤ}
use anclax.Text.{Bytes}
use anclax.Errors.{Err, Sentinel}
use anclax.Db.{World, Reply, ok, fail, ◌>>=◌, return, throw, catch, recover}
use anclax.Db.Effects.Succeeding.{after-ok, recover-ok, Throws}
use anclax.Store.{lift}
use anclax.Macaroons.{JsonToken, Macaroon, CaveatParser}
use anclax.Macaroons.Manager.{parse}
use anclax.Macaroons.Sound.{IsAuthentic, parse-IsAuthentic}
use anclax.Auth.{
  AuthCaveat, Request, Locals, no_locals, is_refresh, library, validate, validate_all, and_then,
  authfunc, token_of_header,
}

module _ {Other : Type 0} where
  -- The users that the caveats name.
  unfoldable pub contexts : List (AuthCaveat Other) → List (ℤ × ℤ)
  contexts [] = []
  contexts (AuthCaveat.user_context user org ∷ cs) = (user, org) ∷ contexts cs
  contexts (AuthCaveat.refresh_only c ∷ cs) = contexts cs
  contexts (AuthCaveat.other c ∷ cs) = contexts cs

  unfoldable pub is_for_refresh : List (AuthCaveat Other) → Bool
  is_for_refresh [] = false
  is_for_refresh (AuthCaveat.refresh_only c ∷ cs) = true
  is_for_refresh (AuthCaveat.user_context user org ∷ cs) = is_for_refresh cs
  is_for_refresh (AuthCaveat.other c ∷ cs) = is_for_refresh cs

-- The user of the request is the one that the token names, if it names one.
abbrev pub IsUser : List (ℤ × ℤ) → Locals → Type 0
IsUser [] l = (l.user_id ≡ none) × (l.org_id ≡ none)
IsUser ((user, org) ∷ more) l = (more ≡ []) × (l.user_id ≡ some user) × (l.org_id ≡ some org)

-- The caveats of the program leave the user alone.
abbrev pub KeepsUser : {Other : Type 0} → (Other → Request → Locals → Reply Locals) → Type 0
KeepsUser {Other} f =
    (c : Other) (r : Request) (l l' : Locals)
    → f c r l ≡ ok l'
    → (l'.user_id ≡ l.user_id) × (l'.org_id ≡ l.org_id)

module _ (Other : Type 0) (marshal : AuthCaveat Other → Reply Bytes)
    (tokens : Bytes → List JsonToken) (hmac_sha256 : Bytes → Bytes → Bytes)
    (validate_other : Other → Request → Locals → Reply Locals) where
  abbrev all_of : List (AuthCaveat Other) → Request → Locals → Reply Locals
  all_of = validate_all Other marshal tokens hmac_sha256 validate_other

  and_then-ok :
      (a : Reply Locals) (f : Locals → Reply Locals) (l' : Locals)
      → and_then Other marshal tokens hmac_sha256 validate_other a f ≡ ok l'
      → (l : Locals) × (a ≡ ok l) × (f l ≡ ok l')
  and_then-ok (ok l) f l' h = (l, refl, h)
  and_then-ok (fail e) f l' h = absurd (ground (arith, h))

  -- Once a user is set, no further one is accepted.
  validate_all-set :
      KeepsUser validate_other
      → (cs : List (AuthCaveat Other)) (r : Request) (l l' : Locals) (user org : ℤ)
      → l.user_id ≡ some user
      → l.org_id ≡ some org
      → all_of cs r l ≡ ok l'
      → (contexts cs ≡ []) × (l'.user_id ≡ some user) × (l'.org_id ≡ some org)
  unfolding validate_all validate contexts
  validate_all-set keeps [] r l l' user org u o h =
      (refl, ground (arith, h, u), ground (arith, h, o))
  validate_all-set keeps (AuthCaveat.user_context user' org' ∷ cs) r l l' user org u o h =
      absurd (ground (arith, rw o at (rw u at h)))
  validate_all-set keeps (AuthCaveat.refresh_only c ∷ cs) r l l' user org u o h =
      elim (Bool-cases (is_refresh r)) [
        | inl e ↦ validate_all-set keeps cs r l l' user org u o (rw e at h)
        | inr e ↦ absurd (ground (arith, rw e at h))
      ]
  validate_all-set keeps (AuthCaveat.other c ∷ cs) r l l' user org u o h =
      let (l1, first, rest) = and_then-ok (validate_other c r l) (all_of cs r) l' h in
      let (same_user, same_org) = keeps c r l l1 first in
      validate_all-set keeps cs r l1 l' user org (same_user ∙ u) (same_org ∙ o) rest

  validate_all-unset :
      KeepsUser validate_other
      → (cs : List (AuthCaveat Other)) (r : Request) (l l' : Locals) → l.user_id ≡ none
      → l.org_id ≡ none
      → all_of cs r l ≡ ok l'
      → IsUser (contexts cs) l'
  unfolding validate_all validate contexts
  validate_all-unset keeps [] r l l' u o h = (ground (arith, h, u), ground (arith, h, o))
  validate_all-unset keeps (AuthCaveat.user_context user org ∷ cs) r l l' u o h =
      validate_all-set keeps cs r (record l { user_id = some user; org_id = some org }) l' user org
        refl refl (rw u at h)
  validate_all-unset keeps (AuthCaveat.refresh_only c ∷ cs) r l l' u o h =
      elim (Bool-cases (is_refresh r)) [
        | inl e ↦ validate_all-unset keeps cs r l l' u o (rw e at h)
        | inr e ↦ absurd (ground (arith, rw e at h))
      ]
  validate_all-unset keeps (AuthCaveat.other c ∷ cs) r l l' u o h =
      let (l1, first, rest) = and_then-ok (validate_other c r l) (all_of cs r) l' h in
      let (same_user, same_org) = keeps c r l l1 first in
      validate_all-unset keeps cs r l1 l' (same_user ∙ u) (same_org ∙ o) rest

  validate_all-refresh :
      (cs : List (AuthCaveat Other)) (r : Request) (l l' : Locals)
      → all_of cs r l ≡ ok l'
      → is_for_refresh cs ≡ true
      → is_refresh r ≡ true
  unfolding validate_all validate is_for_refresh
  validate_all-refresh [] r l l' h k = absurd (ground (arith, k))
  validate_all-refresh (AuthCaveat.refresh_only c ∷ cs) r l l' h k =
      elim (Bool-cases (is_refresh r)) [ inl e ↦ e | inr e ↦ absurd (ground (arith, rw e at h)) ]
  validate_all-refresh (AuthCaveat.user_context user org ∷ cs) r l l' h k =
      let (l1, first, rest) =
        and_then-ok
          (validate Other marshal tokens hmac_sha256 validate_other
            (AuthCaveat.user_context user org) r l)
          (all_of cs r) l' h in
      validate_all-refresh cs r l1 l' rest k
  validate_all-refresh (AuthCaveat.other c ∷ cs) r l l' h k =
      let (l1, first, rest) = and_then-ok (validate_other c r l) (all_of cs r) l' h in
      validate_all-refresh cs r l1 l' rest k

  Throws-unauthorized :
      {A : Type 0} (what : String)
      → Throws {A = A} (λ e. throw (Err.wrap what (Err.sentinel Sentinel.unauthorized)))
  Throws-unauthorized what e w w' a h = ground (arith, ap (λ x. x.1) h)

  -- A request that the token lets through, whatever statements fail, when the caveats of the program
  -- leave the user alone: the token is signed with a key that is stored; the request is the refresh if
  -- the token is for refreshing only; and its user is the only one that the token names, so that no
  -- caveat added by its holder makes him another.
  pub authfunc-IsUser :
      (parser : CaveatParser (library Other marshal tokens hmac_sha256)) (header : Bytes)
      (r : Request) (w w' : World) (token : Macaroon (library Other marshal tokens hmac_sha256))
      (l : Locals)
      → KeepsUser validate_other
      → authfunc Other marshal tokens hmac_sha256 validate_other parser header r no_locals w
        ≡ (w', ok (token, l))
      → IsAuthentic
          (library Other marshal tokens hmac_sha256)
          parser
          w
          (token_of_header header)
          token
        × (is_for_refresh token.caveats ≡ true → is_refresh r ≡ true)
        × IsUser (contexts token.caveats) l
  unfolding authfunc
  authfunc-IsUser parser [] r w w' token l keeps h = absurd (ground (arith, ap (λ x. x.1) h))
  authfunc-IsUser parser (c ∷ header) r w w' token l keeps h =
      let lib = library Other marshal tokens hmac_sha256 in
      let given = token_of_header (c ∷ header) in
      let (w1, t, read, k) =
        after-ok
          (recover (parse lib parser given w) (λ e.
            throw (Err.wrap "failed to parse macaroon token" (Err.sentinel Sentinel.unauthorized))))
          (λ t.
            catch (lift (all_of t.caveats r no_locals)) (λ e.
              throw (Err.wrap "failed to validate caveat" (Err.sentinel Sentinel.unauthorized)))
            >>= λ l'. return (t, l'))
          w' (token, l) h in
      let (w2, l2, valid, e) =
        after-ok
          (recover (lift (all_of t.caveats r no_locals) w1) (λ e.
            throw (Err.wrap "failed to validate caveat" (Err.sentinel Sentinel.unauthorized))))
          (λ l'. return (t, l')) w' (token, l) k in
      let passed =
        recover-ok (lift (all_of t.caveats r no_locals) w1) _ w2 l2
          (Throws-unauthorized "failed to validate caveat") valid in
      let parsed =
        recover-ok (parse lib parser given w) _ w1 t
          (Throws-unauthorized "failed to parse macaroon token") read in
      subst
        (λ (x : Macaroon lib × Locals).
          IsAuthentic lib parser w given x.0
          × (is_for_refresh x.0.caveats ≡ true → is_refresh r ≡ true)
          × IsUser (contexts x.0.caveats) x.1)
        (ground (arith, ap (λ x. x.1) e))
        (
          parse-IsAuthentic lib parser given w w1 t parsed,
          validate_all-refresh t.caveats r no_locals l2 (ap (λ x. x.1) passed),
          validate_all-unset keeps t.caveats r no_locals l2 refl refl (ap (λ x. x.1) passed),
        )
