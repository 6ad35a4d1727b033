-- ===== src/Proxy/Supervisor/Machine.antt =====
-- src/proxy/supervisor.rs: the life of the proxy's task. The operations hold the state's lock; what
-- happens between them is a sequence of steps.
pub mod Laws
mod Tests
use awg_easy_rs.Prelude.{
  ℕ, suc, ◌≡◌, ◌≢◌, List, [], ◌∷◌, ◌++◌, All, Option, none, some, Bool, true, false, ◌==◌, ◌||◌,
  if◌then◌else◌, codes,
}

pub record Live : Type 0 where
  pub cfg_hash : ℕ
  pub generation : ℕ
  pub started_at : ℕ
  pub listen : List ℕ
  pub backend : List ℕ
  pub protocol : List ℕ

pub record State : Type 0 where
  pub live : Option Live
  pub disabled_reason : Option (List ℕ)
  pub last_error : Option (List ℕ)

abbrev pub initial : State
initial = record { live = none; disabled_reason = none; last_error = none }

-- The end of `start`.
unfoldable pub register : Live → State → State
register live state = record state { live = some live; disabled_reason = none; last_error = none }

-- `stop_if_running`, up to the shutdown of the task that it takes.
unfoldable pub stop_if_running : List ℕ → State → State
stop_if_running reason state = record state { live = none; disabled_reason = some reason }

-- What is left of the state when a task ends, with its error or without one.
unfoldable pub keep_error : Option (List ℕ) → Option (List ℕ) → Option (List ℕ)
keep_error none old = old
keep_error (some e) old = some e

unfoldable pub is_current : ℕ → Option Live → Bool
is_current generation none = false
is_current generation (some l) = l.generation == generation

unfoldable pub complete : ℕ → Option (List ℕ) → State → State
complete generation error state =
    if is_current generation state.live
    then record state { live = none; last_error = keep_error error state.last_error }
    else state

-- `ensure_running` leaves a task with the same configuration alone.
unfoldable pub runs_config : ℕ → Option Live → Bool
runs_config hash none = false
runs_config hash (some l) = l.cfg_hash == hash

pub data Status : Type 0 where
  disabled : List ℕ → Status
  running : List ℕ → List ℕ → List ℕ → ℕ → Status
  crashed : List ℕ → Status

unfoldable pub idle_status : Option (List ℕ) → Option (List ℕ) → Status
idle_status (some e) reason = crashed e
idle_status none (some reason) = disabled reason
idle_status none none = disabled (codes "proxy is disabled")

-- The first argument is the time since a start.
unfoldable pub status : (ℕ → ℕ) → State → Status
status elapsed state = elim state.live [
  | some l ↦ running l.listen l.backend l.protocol (elapsed l.started_at)
  | none ↦ idle_status state.last_error state.disabled_reason
]

-- The state, the counter of generations, the starts that have spawned their task and not yet
-- registered it, and the tasks that have not ended.
pub record World : Type 0 where
  pub state : State
  pub generation : ℕ
  pub starting : List Live
  pub tasks : List ℕ

unfoldable pub member : ℕ → List ℕ → Bool
member g [] = false
member g (t ∷ tasks) = t == g || member g tasks

unfoldable pub remove : ℕ → List ℕ → List ℕ
remove g [] = []
remove g (t ∷ tasks) = let rest = remove g tasks in if t == g then rest else t ∷ rest

abbrev pub Unstarted : ℕ → List Live → Type 0
Unstarted g starting = All (λ l. l.generation ≢ g) starting

-- A start spawns, and registers later; a task ends at any time after it is spawned, and then takes
-- the lock; the administrator stops the proxy.
pub data Step : World → World → Type 0 where
  spawn :
      (w : World) (l : Live)
      → l.generation ≡ suc w.generation
      → Step w (record w {
        generation = suc w.generation;
        starting = l ∷ w.starting;
        tasks = l.generation ∷ w.tasks;
      })
  registers :
      (w : World) (before : List Live) (l : Live) (after : List Live)
      → w.starting ≡ before ++ (l ∷ after)
      → Step w (record w { state = register l w.state; starting = before ++ after })
  ends :
      (w : World) (g : ℕ) (error : Option (List ℕ))
      → Unstarted g w.starting
      → Step w (record w { state = complete g error w.state; tasks = remove g w.tasks })
  ends_early :
      (w : World) (before : List Live) (l : Live) (after : List Live) (error : Option (List ℕ))
      → w.starting ≡ before ++ (l ∷ after)
      → Step w (record w {
        state = complete l.generation error w.state;
        tasks = remove l.generation w.tasks;
      })
  stops :
      (w : World) (reason : List ℕ) → Step w (record w { state = stop_if_running reason w.state })

-- No task ends before its start has registered it.
abbrev pub IsOrderly : (w v : World) → Step w v → Type 0
IsOrderly _ _ (ends_early w before l after error e) = ⊥
IsOrderly _ _ (spawn w l e) = Unit
IsOrderly _ _ (registers w before l after e) = Unit
IsOrderly _ _ (ends w g error u) = Unit
IsOrderly _ _ (stops w reason) = Unit

abbrev pub empty : World
empty = record { state = initial; generation = 0; starting = []; tasks = [] }

pub data Reach : World → Type 0 where
  begins : Reach empty
  goes_on : (w v : World) → Reach w → Step w v → Reach v

pub data OrderlyReach : World → Type 0 where
  begins_orderly : OrderlyReach empty
  goes_on_orderly :
      (w v : World) → OrderlyReach w → (s : Step w v) → IsOrderly w v s → OrderlyReach v
