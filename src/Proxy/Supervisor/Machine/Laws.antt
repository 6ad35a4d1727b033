-- ===== src/Proxy/Supervisor/Machine/Laws.antt =====
-- src/proxy/supervisor.rs: the reported status against the tasks that run.
use awg_easy_rs.Prelude.{
  ℕ, ◌≡◌, ◌≢◌, refl, inl, inr, List, [], ◌∷◌, ◌++◌, All, Option, none, some, Bool-cases,
  Option-cases, true, false, ◌==◌, ==_iff, arith,
}
use mathlib.Core.Path.{subst}
use awg_easy_rs.Proxy.Supervisor.Machine.{
  Live, State, register, stop_if_running, is_current, complete, running, idle_status, status, World,
  member, remove, Unstarted, Step, spawn, registers, ends, ends_early, stops, IsOrderly,
  OrderlyReach, begins_orderly, goes_on_orderly,
}

-- The task of a registered proxy has not ended.
abbrev pub LiveRuns : Option Live → List ℕ → Type 0
LiveRuns none tasks = Unit
LiveRuns (some l) tasks = member l.generation tasks ≡ true

abbrev Run : List ℕ → Live → Type 0
Run tasks l = member l.generation tasks ≡ true

abbrev pub Sound : World → Type 0
Sound w = LiveRuns w.state.live w.tasks × All (Run w.tasks) w.starting

member-behind :
    (t k : ℕ) (tasks : List ℕ)
    → (k == t) ≡ false
    → member t (k ∷ tasks) ≡ true
    → member t tasks ≡ true
unfolding member
member-behind t k tasks n h = rw (n, member) at h

member-remove :
    (g t : ℕ) (tasks : List ℕ) → t ≢ g → member t tasks ≡ true → member t (remove g tasks) ≡ true
unfolding member remove
member-remove g t [] n h = h
member-remove g t (k ∷ tasks) n h = elim (Bool-cases (k == g)) [
  | inl y ↦
      rw (y, remove)
        (member-remove g t tasks n (member-behind t k tasks (not_it ((==_iff k g).0 y)) h))
  | inr z ↦
      rw (z, remove)
        (elim (Bool-cases (k == t)) [
          | inl it ↦ rw (it, member) refl
          | inr other ↦
              rw (other, member) (member-remove g t tasks n (member-behind t k tasks other h))
        ])
]
  where
    not_it : k ≡ g → (k == t) ≡ false
    not_it e = ground arith

member-cons : (t g : ℕ) (tasks : List ℕ) → member t tasks ≡ true → member t (g ∷ tasks) ≡ true
unfolding member
member-cons t g tasks h = elim (Bool-cases (g == t)) [
  | inl y ↦ rw (y, member) refl
  | inr z ↦ rw (z, member) h
]

member_self : (g : ℕ) (tasks : List ℕ) → member g (g ∷ tasks) ≡ true
unfolding member
member_self g tasks = ground arith

All_starting :
    (P Q : Live → Type 0) (ls : List Live) → ((l : Live) → P l → Q l) → All P ls → All Q ls
All_starting P Q [] f ps = tt
All_starting P Q (l ∷ ls) f (p, ps) = (f l p, All_starting P Q ls f ps)

LiveRuns-map :
    (o : Option Live) (tasks tasks' : List ℕ)
    → ((l : Live) → Run tasks l → Run tasks' l)
    → LiveRuns o tasks
    → LiveRuns o tasks'
LiveRuns-map none tasks tasks' f h = tt
LiveRuns-map (some l) tasks tasks' f h = f l h

-- The parts of a list around one of its elements.
All-around :
    (P : Live → Type 0) (before : List Live) (l : Live) (after : List Live)
    → All P (before ++ (l ∷ after))
    → P l × All P (before ++ after)
All-around P [] l after (p, ps) = (p, ps)
All-around P (b ∷ before) l after (p, ps) =
    let (q, qs) = All-around P before l after ps in (q, (p, qs))

starting-remove :
    (g : ℕ) (tasks : List ℕ) (ls : List Live)
    → Unstarted g ls
    → All (Run tasks) ls
    → All (Run (remove g tasks)) ls
starting-remove g tasks [] u r = tt
starting-remove g tasks (l ∷ ls) (n, u) (r, rs) =
    (member-remove g l.generation tasks n r, starting-remove g tasks ls u rs)

current_other :
    (g : ℕ) (o : Option Live) (tasks : List ℕ)
    → is_current g o ≡ false
    → LiveRuns o tasks
    → LiveRuns o (remove g tasks)
unfolding is_current
current_other g none tasks n h = tt
current_other g (some l) tasks n h = member-remove g l.generation tasks (ground arith) h

complete-LiveRuns :
    (g : ℕ) (error : Option (List ℕ)) (state : State) (tasks : List ℕ)
    → LiveRuns state.live tasks
    → LiveRuns (complete g error state).live (remove g tasks)
unfolding complete
complete-LiveRuns g error state tasks h = elim (Bool-cases (is_current g state.live)) [
  | inl y ↦ rw y tt
  | inr z ↦ rw z (current_other g state.live tasks z h)
]

Step-Sound : (w v : World) (s : Step w v) → IsOrderly w v s → Sound w → Sound v
unfolding register stop_if_running
Step-Sound _ _ (spawn w l e) o (h, hs) = (
  LiveRuns-map w.state.live w.tasks (l.generation ∷ w.tasks)
      (λ k. member-cons k.generation l.generation w.tasks) h,
  (
    member_self l.generation w.tasks,
    All_starting (Run w.tasks) (Run (l.generation ∷ w.tasks)) w.starting
        (λ k. member-cons k.generation l.generation w.tasks) hs,
  ),
)
Step-Sound _ _ (registers w before l after e) o (h, hs) =
    All-around (Run w.tasks) before l after (subst (All (Run w.tasks)) e hs)
Step-Sound _ _ (ends w g error u) o (h, hs) =
    (complete-LiveRuns g error w.state w.tasks h, starting-remove g w.tasks w.starting u hs)
Step-Sound _ _ (ends_early w before l after error e) o h = absurd o
Step-Sound _ _ (stops w reason) o (h, hs) = (tt, hs)

pub OrderlyReach-Sound : (w : World) → OrderlyReach w → Sound w
OrderlyReach-Sound _ begins_orderly = (tt, tt)
OrderlyReach-Sound _ (goes_on_orderly w v r s o) = Step-Sound w v s o (OrderlyReach-Sound w r)

idle_not_running :
    (e r : Option (List ℕ)) (listen backend protocol : List ℕ) (uptime : ℕ)
    → idle_status e r ≡ running listen backend protocol uptime
    → ⊥
unfolding idle_status
idle_not_running (some e) r listen backend protocol uptime q = cc
idle_not_running none (some r) listen backend protocol uptime q = cc
idle_not_running none none listen backend protocol uptime q = cc

running_live :
    (elapsed : ℕ → ℕ) (state : State) (listen backend protocol : List ℕ) (uptime : ℕ)
    (tasks : List ℕ)
    → LiveRuns state.live tasks
    → status elapsed state ≡ running listen backend protocol uptime
    → (l : Live) × (state.live ≡ some l) × (member l.generation tasks ≡ true)
unfolding status
running_live elapsed state listen backend protocol uptime tasks h e =
    elim (Option-cases state.live) [
      | inl n ↦ absurd (
          idle_not_running state.last_error state.disabled_reason listen backend protocol uptime
            (rw (n, status) at e))
      | inr (l, q) ↦ (l, q, subst (λ o. LiveRuns o tasks) q h)
    ]

-- Where each task has ended only after its start registered it, a status of a running proxy is
-- true: the state holds a task, and that task has not ended.
pub status-running :
    (w : World) (elapsed : ℕ → ℕ) (listen backend protocol : List ℕ) (uptime : ℕ)
    → OrderlyReach w
    → status elapsed w.state ≡ running listen backend protocol uptime
    → (l : Live) × (w.state.live ≡ some l) × (member l.generation w.tasks ≡ true)
status-running w elapsed listen backend protocol uptime r e =
    running_live elapsed w.state listen backend protocol uptime w.tasks (OrderlyReach-Sound w r).0 e
