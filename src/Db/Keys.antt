-- ===== src/Db/Keys.antt =====
-- The statements of sql/queries/opaque_keys.sql, as pkg/zgen/querier/opaque_keys.sql.gen.go runs them.
use anclax.Prelude.{
  ◌+◌, ◌≡◌, refl, Bool, true, false, List, [], ◌∷◌, ◌++◌, Option, none, some, arith, if◌then◌else◌,
  inl, inr, Bool-cases,
}
use anclax.Prelude.Int.{ℤ, pos, int_eq}
use anclax.Text.{Bytes, bytes_eq}
use anclax.Db.{KeyRow, World, Reply, ok, M, statement}
use anclax.Db.Tasks.{no_rows}

unfoldable pub find_key : ℤ → List KeyRow → Option Bytes
find_key id [] = none
find_key id (r ∷ rows) = let rest = find_key id rows in if int_eq r.id id then some r.key else rest

unfoldable pub delete_keys : (KeyRow → Bool) → List KeyRow → List KeyRow
delete_keys p [] = []
delete_keys p (r ∷ rows) = let rest = delete_keys p rows in if p r then rest else r ∷ rest

-- "group" = $1, false on NULL.
abbrev pub in_key_group : Bytes → KeyRow → Bool
in_key_group group r = elim r.group [ none ↦ false | some g ↦ bytes_eq g group ]

abbrev pub has_key_id : ℤ → KeyRow → Bool
has_key_id id r = int_eq r.id id

abbrev pub with_keys : (List KeyRow → List KeyRow) → World → World
with_keys f w = record w { db = record w.db { opaque_keys = f w.db.opaque_keys } }

unfoldable pub create_opaque_key : Option Bytes → Bytes → M ℤ
unfolding statement
create_opaque_key group key = statement λ w. (
  record w {
    db = record w.db {
      opaque_keys =
          w.db.opaque_keys
          ++ record { id = pos w.db.next_opaque_key; group = group; key = key } ∷ [];
      next_opaque_key = w.db.next_opaque_key + 1;
    };
  },
  ok (pos w.db.next_opaque_key),
)

abbrev pub found_key : Option Bytes → Reply Bytes
found_key none = no_rows
found_key (some key) = ok key

unfoldable pub get_opaque_key : ℤ → M Bytes
unfolding statement find_key
get_opaque_key id = statement λ w. (w, found_key (find_key id w.db.opaque_keys))

unfoldable pub delete_opaque_key : ℤ → M (Unit {0})
unfolding statement delete_keys
delete_opaque_key id = statement λ w. (with_keys (delete_keys (has_key_id id)) w, ok tt)

unfoldable pub delete_opaque_keys : Bytes → M (Unit {0})
unfolding statement delete_keys
delete_opaque_keys group = statement λ w. (with_keys (delete_keys (in_key_group group)) w, ok tt)

-- A deletion by id leaves no key of that id.
pub find_key-delete_keys_self :
    (id : ℤ) (rows : List KeyRow) → find_key id (delete_keys (has_key_id id) rows) ≡ none
unfolding find_key delete_keys
find_key-delete_keys_self id [] = refl
find_key-delete_keys_self id (r ∷ rows) = elim (Bool-cases (int_eq r.id id)) [
  | inl c ↦ rw c (find_key-delete_keys_self id rows)
  | inr c ↦ rw (c, c) (find_key-delete_keys_self id rows)
]

-- Every row of the id stands in the group.
unfoldable pub all_in_group : ℤ → Bytes → List KeyRow → Bool
all_in_group id group [] = true
all_in_group id group (r ∷ rows) =
    let rest = all_in_group id group rows in
    if int_eq r.id id then (if in_key_group group r then rest else false) else rest

pub find_key-delete_group :
    (id : ℤ) (group : Bytes) (rows : List KeyRow)
    → all_in_group id group rows ≡ true
    → find_key id (delete_keys (in_key_group group) rows) ≡ none
unfolding find_key delete_keys all_in_group
find_key-delete_group id group [] h = refl
find_key-delete_group id group (r ∷ rows) h = ground (arith, find_key-delete_group id group rows)
