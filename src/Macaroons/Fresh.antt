-- ===== src/Macaroons/Fresh.antt =====
-- New keys and the tokens of old ones: pkg/macaroons/macaroons.go and pkg/macaroons/store/store.go.
use anclax.Prelude.{
  ℕ, ◌+◌, ◌≡◌, ◌≢◌, refl, sym, ap, ◌∙◌, subst, inl, inr, List, [], ◌∷◌, ◌++◌, none, some, arith,
  ltb, Bool-cases, Option-cases,
}
use anclax.Prelude.Int.{ℤ, pos, ◌<ℤ◌, int_eq, int_eq_iff}
use anclax.Text.{Bytes, split}
use anclax.Text.Base64.{decode}
use anclax.Text.Decimal.{parse_int}
use anclax.Errors.{errors_is}
use anclax.Db.{KeyRow, World, ok, statement, run_transaction}
use anclax.Db.Effects.{calm}
use anclax.Db.Keys.{find_key, create_opaque_key, get_opaque_key}
use anclax.Db.Inserts.{create_task}
use anclax.Store.{
  push_task, insert_pushed, serial_attributes_from_json, serial_attributes,
  priority_and_weight_attributes,
}
use anclax.Store.Overrides.{with_started_at}
use anclax.Runner.{Parameters, run_task, new_task, apply_overrides, attributes_of, type_of}
use anclax.Macaroons.{Library, Macaroon, CaveatParser}
use anclax.Macaroons.Manager.{parse, parse_parts, parse_split, get_key, create_key, init_last}
use anclax.Macaroons.Sound.{parse-IsAuthentic}

-- Ids of keys are given out in order.
abbrev pub KeysBelow : ℕ → List KeyRow → Type 0
KeysBelow n [] = Unit {0}
KeysBelow n (r ∷ rows) = (r.id <ℤ pos n) × KeysBelow n rows

pub find_key-below :
    (n : ℕ) (id : ℤ) (rows : List KeyRow) (key : Bytes)
    → KeysBelow n rows
    → find_key id rows ≡ some key
    → id <ℤ pos n
unfolding find_key
find_key-below n id [] key h k = absurd (ground (arith, k))
find_key-below n id (r ∷ rows) key h k = elim (Bool-cases (int_eq r.id id)) [
  | inl e ↦ subst (λ i. i <ℤ pos n) ((int_eq_iff r.id id).0 e) h.0
  | inr e ↦ find_key-below n id rows key h.1 (rw e at k)
]

find_key-snoc :
    (id : ℤ) (rows : List KeyRow) (r : KeyRow)
    → find_key id rows ≡ none
    → r.id ≢ id
    → find_key id (rows ++ r ∷ []) ≡ none
unfolding find_key
find_key-snoc id [] r h k = elim (Bool-cases (int_eq r.id id)) [
  | inl e ↦ absurd (k ((int_eq_iff r.id id).0 e))
  | inr e ↦ rw e refl
]
find_key-snoc id (q ∷ rows) r h k = elim (Bool-cases (int_eq q.id id)) [
  | inl e ↦ absurd (ground (arith, rw e at h))
  | inr e ↦ rw e (find_key-snoc id rows r (rw e at h) k)
]

-- A new key stands behind the others, under the next id.
pub create_key-calm :
    (marshal : Parameters → Bytes) (now : ℕ) (key : Bytes) (ttl : ℕ) (group : Bytes) (w : World)
    → (v : World) × (create_key marshal now key ttl group (calm w)
        ≡ (calm v, ok (pos w.db.next_opaque_key)))
      × (v.db.next_opaque_key ≡ w.db.next_opaque_key + 1)
      × ((id : ℤ)
          → find_key id w.db.opaque_keys ≡ none
          → pos w.db.next_opaque_key ≢ id
          → find_key id v.db.opaque_keys ≡ none)
unfolding create_key create_opaque_key run_transaction statement run_task new_task apply_overrides
    attributes_of type_of push_task insert_pushed serial_attributes_from_json serial_attributes
    priority_and_weight_attributes create_task with_started_at
create_key-calm marshal now key ttl group w =
    let v : World = (create_key marshal now key ttl group (calm w)).0 in
    elim (Bool-cases (ltb 0 ttl)) [
      | inl e ↦ (v, rw e refl, rw e refl, λ id h k. rw e (find_key-snoc id w.db.opaque_keys _ h k))
      | inr e ↦ (v, rw e refl, rw e refl, λ id h k. rw e (find_key-snoc id w.db.opaque_keys _ h k))
    ]

module _ (lib : Library) (parser : CaveatParser lib) where
  parse_parts-still :
      (token first : Bytes) (parts : List Bytes) (last : Bytes) (w : World)
      → (parse_parts lib parser token first parts last (calm w)).0 ≡ calm w
  unfolding parse_parts get_key get_opaque_key statement errors_is
  parse_parts-still token first parts last w = elim (Option-cases (decode first)) [
    | inl e ↦ rw e refl
    | inr (header, e) ↦ elim (Option-cases (parse_int header)) [
      | inl f ↦ rw (e, f) refl
      | inr (id, f) ↦ elim (Option-cases (find_key id w.db.opaque_keys)) [
        | inl g ↦ rw (e, f, g) refl
        | inr (key, g) ↦ rw (e, f, g) refl
      ]
    ]
  ]

  -- Parsing changes nothing.
  pub parse-still : (token : Bytes) (w : World) → (parse lib parser token (calm w)).0 ≡ calm w
  unfolding parse
  parse-still token w = go (split b'.' token)
    where
      go : (ps : List Bytes) → (parse_split lib parser token ps (calm w)).0 ≡ calm w
      go [] = refl
      go (p ∷ []) = refl
      go (p ∷ q ∷ ps) = parse_parts-still token p (init_last q ps).0 (init_last q ps).1 w

  -- A token names one key, whatever the database.
  pub parse-same_key :
      (token : Bytes) (w w' v v' : World) (m n : Macaroon lib)
      → parse lib parser token w ≡ (w', ok m)
      → parse lib parser token v ≡ (v', ok n)
      → m.key_id ≡ n.key_id
  parse-same_key token w w' v v' m n h k =
      let a = parse-IsAuthentic lib parser token w w' m h in
      let b = parse-IsAuthentic lib parser token v v' n k in
      let same : a.first ≡ b.first = ground (arith, sym a.splits ∙ b.splits) in
      let header : a.header ≡ b.header =
        ground (arith, sym a.header_of ∙ ap decode same ∙ b.header_of) in
      ground (arith, sym a.names ∙ ap parse_int header ∙ b.names)
