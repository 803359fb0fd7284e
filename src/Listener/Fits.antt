-- ===== src/Listener/Fits.antt =====
-- What fits a subscription: pkg/taskcore/listener/polling.go.
use anclax.Prelude.{
  ℕ, zero, suc, ◌≡◌, refl, ap, ◌∙◌, Bool, true, false, ◌||◌, ◌&&◌, List, [], ◌∷◌, ◌++◌, Option,
  none, some, arith, inl, inr, Bool-cases, length, ◌==◌,
}
use anclax.Prelude.Int.{ℤ, int_eq, int_eq_iff}
use anclax.Errors.{Err}
use anclax.Api.{TaskStatus}
use anclax.Db.Trees.{is_terminal_status}
use anclax.Listener.{
  Subscription, Finish, Loop, TaskTerminalEvent, subs_of, without_task, without_sub, finish_all,
  closings, finish_unless, finish_sub, finish_at, status_event,
}
use anclax.Listener.Polls.{AllTerminal}

unfoldable pub task_of : List Subscription → ℕ → Option ℤ
task_of [] i = none
task_of (s ∷ subs) zero = some s.task_id
task_of (s ∷ subs) (suc i) = task_of subs i

abbrev is_error : Option Err → Bool
is_error none = false
is_error (some e) = true

-- A final status, or an error.
abbrev pub IsReport : TaskTerminalEvent → Type 0
IsReport e = (is_terminal_status e.status || is_error e.err) ≡ true

abbrev pub SentFits : ℤ → Option TaskTerminalEvent → Type 0
SentFits id none = Unit {0}
SentFits id (some e) = (e.task_id ≡ id) × IsReport e

abbrev pub AllSentFit : List Subscription → Type 0
AllSentFit [] = Unit {0}
AllSentFit (s ∷ subs) = SentFits s.task_id s.sent × AllSentFit subs

abbrev pub PairsFit : List Subscription → List (ℤ × ℕ) → Type 0
PairsFit subs [] = Unit {0}
PairsFit subs ((t, s) ∷ ws) = (task_of subs s ≡ some t) × PairsFit subs ws

abbrev FinishFits : List Subscription → Bool → ℕ → TaskTerminalEvent → Type 0
FinishFits subs false sub e = Unit {0}
FinishFits subs true sub e = (task_of subs sub ≡ some e.task_id) × IsReport e

abbrev pub AllFinishFit : List Subscription → List Finish → Type 0
AllFinishFit subs [] = Unit {0}
AllFinishFit subs (f ∷ fs) = FinishFits subs f.send f.sub f.event × AllFinishFit subs fs

abbrev pub LoopFits : List Subscription → Loop → Type 0
LoopFits subs Loop.selecting = Unit {0}
LoopFits subs (Loop.querying ws) = PairsFit subs ws
LoopFits subs (Loop.notifying rows) = AllTerminal rows
LoopFits subs (Loop.failing e ws) = PairsFit subs ws
LoopFits subs Loop.stopped = Unit {0}

-- The tasks of the subscriptions that there are stay as they are.
abbrev Extends : List Subscription → List Subscription → Type 0
Extends subs subs' = (i : ℕ) (t : ℤ) → task_of subs i ≡ some t → task_of subs' i ≡ some t

module _ (subs subs' : List Subscription) (ext : Extends subs subs') where
  pub PairsFit-Extends : (ws : List (ℤ × ℕ)) → PairsFit subs ws → PairsFit subs' ws
  PairsFit-Extends [] h = tt
  PairsFit-Extends ((t, s) ∷ ws) h = (ext s t h.0, PairsFit-Extends ws h.1)

  FinishFits-Extends :
      (send : Bool) (sub : ℕ) (e : TaskTerminalEvent)
      → FinishFits subs send sub e
      → FinishFits subs' send sub e
  FinishFits-Extends true sub e h = (ext sub e.task_id h.0, h.1)
  FinishFits-Extends false sub e h = tt

  pub AllFinishFit-Extends : (fs : List Finish) → AllFinishFit subs fs → AllFinishFit subs' fs
  AllFinishFit-Extends [] h = tt
  AllFinishFit-Extends (f ∷ fs) h =
      (FinishFits-Extends f.send f.sub f.event h.0, AllFinishFit-Extends fs h.1)

  pub LoopFits-Extends : (loop : Loop) → LoopFits subs loop → LoopFits subs' loop
  LoopFits-Extends Loop.selecting h = tt
  LoopFits-Extends (Loop.querying ws) h = PairsFit-Extends ws h
  LoopFits-Extends (Loop.notifying rows) h = h
  LoopFits-Extends (Loop.failing e ws) h = PairsFit-Extends ws h
  LoopFits-Extends Loop.stopped h = tt

pub Extends-snoc : (subs : List Subscription) (s : Subscription) → Extends subs (subs ++ s ∷ [])
unfolding task_of
Extends-snoc [] s i t h = absurd (ground (arith, h))
Extends-snoc (q ∷ subs) s zero t h = h
Extends-snoc (q ∷ subs) s (suc i) t h = Extends-snoc subs s i t h

pub task_of-snoc :
    (subs : List Subscription) (s : Subscription)
    → task_of (subs ++ s ∷ []) (length subs) ≡ some s.task_id
unfolding task_of
task_of-snoc [] s = refl
task_of-snoc (q ∷ subs) s = task_of-snoc subs s

finish_sub-task_id :
    (e : TaskTerminalEvent) (send : Bool) (s : Subscription)
    → (finish_sub e send s).task_id ≡ s.task_id
finish_sub-task_id e send s = ground arith

pub Extends-finish_at :
    (i : ℕ) (e : TaskTerminalEvent) (send : Bool) (subs : List Subscription)
    → Extends subs (finish_at i e send subs)
unfolding task_of finish_at
Extends-finish_at i e send [] j t h = h
Extends-finish_at zero e send (s ∷ subs) zero t h = ap some (finish_sub-task_id e send s) ∙ h
Extends-finish_at zero e send (s ∷ subs) (suc j) t h = h
Extends-finish_at (suc i) e send (s ∷ subs) zero t h = h
Extends-finish_at (suc i) e send (s ∷ subs) (suc j) t h = Extends-finish_at i e send subs j t h

SentFits-finish_sub :
    (e : TaskTerminalEvent) (send : Bool) (s : Subscription)
    → SentFits s.task_id s.sent
    → FinishFits (s ∷ []) send 0 e
    → SentFits (finish_sub e send s).task_id (finish_sub e send s).sent
unfolding task_of
SentFits-finish_sub e send s h k = go s.finished send k
  where
    go :
        (b send : Bool)
        → FinishFits (s ∷ []) send 0 e
        → SentFits (finish_unless b e send s).task_id (finish_unless b e send s).sent
    go true send k = h
    go false true k = (ground (arith, k.0), k.1)
    go false false k = tt

FinishFits-head :
    (s : Subscription) (subs : List Subscription) (send : Bool) (e : TaskTerminalEvent)
    → FinishFits (s ∷ subs) send 0 e
    → FinishFits (s ∷ []) send 0 e
unfolding task_of
FinishFits-head s subs true e h = h
FinishFits-head s subs false e h = tt

FinishFits-tail :
    (s : Subscription) (subs : List Subscription) (send : Bool) (i : ℕ) (e : TaskTerminalEvent)
    → FinishFits (s ∷ subs) send (suc i) e
    → FinishFits subs send i e
unfolding task_of
FinishFits-tail s subs true i e h = h
FinishFits-tail s subs false i e h = tt

pub AllSentFit-finish_at :
    (i : ℕ) (e : TaskTerminalEvent) (send : Bool) (subs : List Subscription)
    → AllSentFit subs
    → FinishFits subs send i e
    → AllSentFit (finish_at i e send subs)
unfolding finish_at
AllSentFit-finish_at i e send [] h k = tt
AllSentFit-finish_at zero e send (s ∷ subs) h k =
    (SentFits-finish_sub e send s h.0 (FinishFits-head s subs send e k), h.1)
AllSentFit-finish_at (suc i) e send (s ∷ subs) h k =
    (h.0, AllSentFit-finish_at i e send subs h.1 (FinishFits-tail s subs send i e k))

pub AllSentFit-snoc :
    (subs : List Subscription) (id : ℤ)
    → AllSentFit subs
    → AllSentFit (subs ++ record { task_id = id; sent = none; finished = false } ∷ [])
AllSentFit-snoc [] id h = (tt, tt)
AllSentFit-snoc (s ∷ subs) id h = (h.0, AllSentFit-snoc subs id h.1)

pub PairsFit-append :
    (subs : List Subscription) (ws vs : List (ℤ × ℕ))
    → PairsFit subs ws
    → PairsFit subs vs
    → PairsFit subs (ws ++ vs)
PairsFit-append subs [] vs h k = k
PairsFit-append subs ((t, s) ∷ ws) vs h k = (h.0, PairsFit-append subs ws vs h.1 k)

pub AllFinishFit-append :
    (subs : List Subscription) (fs gs : List Finish)
    → AllFinishFit subs fs
    → AllFinishFit subs gs
    → AllFinishFit subs (fs ++ gs)
AllFinishFit-append subs [] gs h k = k
AllFinishFit-append subs (f ∷ fs) gs h k = (h.0, AllFinishFit-append subs fs gs h.1 k)

pub AllFinishFit-split :
    (subs : List Subscription) (fs gs : List Finish) (f : Finish)
    → AllFinishFit subs (fs ++ f ∷ gs)
    → FinishFits subs f.send f.sub f.event × AllFinishFit subs (fs ++ gs)
AllFinishFit-split subs [] gs f h = (h.0, h.1)
AllFinishFit-split subs (g ∷ fs) gs f h =
    let (here, rest) = AllFinishFit-split subs fs gs f h.1 in (here, (h.0, rest))

module _ (subs : List Subscription) where
  pub PairsFit-without_sub :
      (id : ℤ) (sub : ℕ) (ws : List (ℤ × ℕ))
      → PairsFit subs ws
      → PairsFit subs (without_sub id sub ws)
  unfolding without_sub
  PairsFit-without_sub id sub [] h = tt
  PairsFit-without_sub id sub ((t, s) ∷ ws) h = elim (Bool-cases (int_eq t id && s == sub)) [
    | inl e ↦ rw e (PairsFit-without_sub id sub ws h.1)
    | inr e ↦ rw e (h.0, PairsFit-without_sub id sub ws h.1)
  ]

  pub PairsFit-without_task :
      (id : ℤ) (ws : List (ℤ × ℕ)) → PairsFit subs ws → PairsFit subs (without_task id ws)
  unfolding without_task
  PairsFit-without_task id [] h = tt
  PairsFit-without_task id ((t, s) ∷ ws) h = elim (Bool-cases (int_eq t id)) [
    | inl e ↦ rw e (PairsFit-without_task id ws h.1)
    | inr e ↦ rw e (h.0, PairsFit-without_task id ws h.1)
  ]

  pub AllFinishFit-finish_all :
      (id : ℤ) (status : TaskStatus) (ws : List (ℤ × ℕ))
      → is_terminal_status status ≡ true
      → PairsFit subs ws
      → AllFinishFit subs (finish_all (status_event id status) (subs_of id ws))
  unfolding finish_all subs_of
  AllFinishFit-finish_all id status [] t h = tt
  AllFinishFit-finish_all id status ((j, s) ∷ ws) t h = elim (Bool-cases (int_eq j id)) [
    | inl e ↦ rw e (
      (h.0 ∙ ap some ((int_eq_iff j id).0 e), ground (arith, t)),
      AllFinishFit-finish_all id status ws t h.1,
    )
    | inr e ↦ rw e (AllFinishFit-finish_all id status ws t h.1)
  ]

  pub AllFinishFit-closings :
      (e : Err) (ws : List (ℤ × ℕ)) → PairsFit subs ws → AllFinishFit subs (closings e ws)
  unfolding closings is_terminal_status
  AllFinishFit-closings e [] h = tt
  AllFinishFit-closings e ((t, s) ∷ ws) h = ((h.0, refl), AllFinishFit-closings e ws h.1)
