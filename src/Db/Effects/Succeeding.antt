-- ===== src/Db/Effects/Succeeding.antt =====
-- Actions that return a value: their parts did.
use anclax.Prelude.{◌≡◌, refl, ap, arith, String}
use anclax.Errors.{Err}
use anclax.Db.{World, Reply, ok, fail, M, after, recover, throw}

-- A bind that succeeds: its parts do.
pub after-ok :
    {A B : Type 0} (out : World × Reply A) (f : A → M B) (w' : World) (b : B)
    → after out f ≡ (w', ok b)
    → (w : World) × (a : A) × (out ≡ (w, ok a)) × (f a w ≡ (w', ok b))
after-ok (w, ok a) f w' b h = (w, a, refl, h)
after-ok (w, fail e) f w' b h = absurd (ground (arith, ap (λ x. x.1) h))

-- An error handler that only passes errors on.
abbrev pub Throws : {A : Type 0} → (Err → M A) → Type 0
Throws {A} f = (e : Err) (w w' : World) (a : A) → f e w ≡ (w', ok a) → ⊥

pub recover-ok :
    {A : Type 0} (out : World × Reply A) (f : Err → M A) (w' : World) (a : A)
    → Throws f
    → recover out f ≡ (w', ok a)
    → out ≡ (w', ok a)
recover-ok (w, ok a) f w' b t h = h
recover-ok (w, fail e) f w' b t h = absurd (t e w w' b h)

pub Throws-wrap : {A : Type 0} (what : String) → Throws {A = A} (λ e. throw (Err.wrap what e))
Throws-wrap what e w w' a h = ground (arith, ap (λ x. x.1) h)

-- The same of a value that needs no statement.
pub lift-ok :
    {A B : Type 0} (r : Reply A) (f : A → M B) (w w' : World) (b : B)
    → after (w, r) f ≡ (w', ok b)
    → (a : A) × (r ≡ ok a) × (f a w ≡ (w', ok b))
lift-ok (ok a) f w w' b h = (a, refl, h)
lift-ok (fail e) f w w' b h = absurd (ground (arith, ap (λ x. x.1) h))
