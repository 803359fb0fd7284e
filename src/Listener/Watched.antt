-- ===== src/Listener/Watched.antt =====
-- Which subscriptions are watched, closed, or to be closed: pkg/taskcore/listener/polling.go.
use anclax.Prelude.{
  ℕ, zero, suc, ◌<◌, ◌≡◌, refl, ap, Bool, true, false, ◌||◌, List, [], ◌∷◌, ◌++◌, arith, ◌==◌,
  length,
}
use anclax.Prelude.Int.{ℤ}
use anclax.Errors.{Err}
use anclax.Listener.{
  PollingTaskEventListener, Subscription, Finish, TaskTerminalEvent, subs_of, without_task,
  without_sub, finish_all, closings, finish_at,
}

unfoldable pub is_finished : List Subscription → ℕ → Bool
is_finished [] i = false
is_finished (s ∷ subs) zero = s.finished
is_finished (s ∷ subs) (suc i) = is_finished subs i

unfoldable pub is_pending : ℕ → List Finish → Bool
is_pending i [] = false
is_pending i (f ∷ fs) = f.sub == i || is_pending i fs

unfoldable pub is_watched : ℕ → List (ℤ × ℕ) → Bool
is_watched i [] = false
is_watched i ((t, s) ∷ ws) = s == i || is_watched i ws

-- The channel is closed, or is about to be, or the subscription is watched.
abbrev pub is_accounted : PollingTaskEventListener → ℕ → Bool
is_accounted l i =
    is_finished l.subscriptions i || (is_pending i l.pending || is_watched i l.watchers)

pub is_pending-append :
    (i : ℕ) (fs gs : List Finish) → is_pending i (fs ++ gs) ≡ (is_pending i fs || is_pending i gs)
unfolding is_pending
is_pending-append i [] gs = refl
is_pending-append i (f ∷ fs) gs = ground (arith, is_pending-append i fs gs)

pub is_watched-append :
    (i : ℕ) (ws vs : List (ℤ × ℕ)) → is_watched i (ws ++ vs) ≡ (is_watched i ws || is_watched i vs)
unfolding is_watched
is_watched-append i [] vs = refl
is_watched-append i ((t, s) ∷ ws) vs = ground (arith, is_watched-append i ws vs)

pub is_finished-snoc :
    (subs : List Subscription) (s : Subscription) (i : ℕ)
    → i < length subs
    → is_finished (subs ++ s ∷ []) i ≡ is_finished subs i
unfolding is_finished
is_finished-snoc [] s i h = absurd (omega arith)
is_finished-snoc (t ∷ subs) s zero h = refl
is_finished-snoc (t ∷ subs) s (suc i) h = is_finished-snoc subs s i (omega arith)

pub is_watched-without_sub :
    (i : ℕ) (id : ℤ) (sub : ℕ) (ws : List (ℤ × ℕ))
    → is_watched i ws ≡ true
    → (sub == i || is_watched i (without_sub id sub ws)) ≡ true
unfolding is_watched without_sub
is_watched-without_sub i id sub [] h = absurd (ground (arith, h))
is_watched-without_sub i id sub ((t, s) ∷ ws) h =
    ground (arith, h, is_watched-without_sub i id sub ws)

pub is_watched-without_task :
    (i : ℕ) (id : ℤ) (event : TaskTerminalEvent) (ws : List (ℤ × ℕ))
    → is_watched i ws ≡ true
    → (is_pending i (finish_all event (subs_of id ws)) || is_watched i (without_task id ws)) ≡ true
unfolding is_watched without_task subs_of finish_all is_pending
is_watched-without_task i id event [] h = absurd (ground (arith, h))
is_watched-without_task i id event ((t, s) ∷ ws) h =
    ground (arith, h, is_watched-without_task i id event ws)

pub is_watched-closings :
    (i : ℕ) (e : Err) (ws : List (ℤ × ℕ))
    → is_watched i ws ≡ true
    → is_pending i (closings e ws) ≡ true
unfolding is_watched is_pending closings
is_watched-closings i e [] h = absurd (ground (arith, h))
is_watched-closings i e ((t, s) ∷ ws) h = ground (arith, h, is_watched-closings i e ws)

pub length-finish_at :
    (i : ℕ) (event : TaskTerminalEvent) (send : Bool) (subs : List Subscription)
    → length (finish_at i event send subs) ≡ length subs
unfolding finish_at
length-finish_at i event send [] = refl
length-finish_at zero event send (s ∷ subs) = refl
length-finish_at (suc i) event send (s ∷ subs) = ap suc (length-finish_at i event send subs)

-- A `finish` closes its own channel, and opens none.
pub is_finished-finish_at :
    (j i : ℕ) (event : TaskTerminalEvent) (send : Bool) (subs : List Subscription)
    → i < length subs
    → (is_finished subs i || j == i) ≡ true
    → is_finished (finish_at j event send subs) i ≡ true
unfolding is_finished finish_at
is_finished-finish_at j i event send [] h k = absurd (omega arith)
is_finished-finish_at zero zero event send (s ∷ subs) h k = ground arith
is_finished-finish_at zero (suc i) event send (s ∷ subs) h k = ground (arith, k)
is_finished-finish_at (suc j) zero event send (s ∷ subs) h k = ground (arith, k)
is_finished-finish_at (suc j) (suc i) event send (s ∷ subs) h k =
    is_finished-finish_at j i event send subs (omega arith) (ground (arith, k))
