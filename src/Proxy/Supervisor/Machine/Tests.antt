-- ===== src/Proxy/Supervisor/Machine/Tests.antt =====
-- Runs of the proxy's task.
use awg_easy_rs.Prelude.{◌≡◌, refl, [], ◌∷◌, some, true, codes}
use awg_easy_rs.Proxy.Supervisor.Machine.{
  Live, register, stop_if_running, complete, is_current, keep_error, crashed, running, idle_status,
  status, World, member, remove, spawn, registers, ends_early, empty, Reach, begins, goes_on,
  OrderlyReach, begins_orderly, goes_on_orderly,
}
use awg_easy_rs.Proxy.Supervisor.Machine.Laws.{status-running}

abbrev first : Live
first = record {
  cfg_hash = 77;
  generation = 1;
  started_at = 0;
  listen = codes "0.0.0.0:51820";
  backend = codes "127.0.0.1:51821";
  protocol = codes "quic";
}

abbrev spawned : World
spawned = record empty { generation = 1; starting = first ∷ []; tasks = 1 ∷ [] }

abbrev registered : World
registered = record spawned { state = register first empty.state; starting = [] }

reaches : OrderlyReach registered
reaches =
    goes_on_orderly spawned registered
      (goes_on_orderly empty spawned begins_orderly (spawn empty first refl) tt)
      (registers spawned [] first [] refl) tt

status-running_example :
    (l : Live) × (registered.state.live ≡ some l) × (member l.generation registered.tasks ≡ true)
unfolding status register
status-running_example =
    status-running registered (λ t. t) first.listen first.backend first.protocol 0 reaches shown
  where
    shown : status (λ t. t) registered.state ≡ running first.listen first.backend first.protocol 0
    shown = refl

-- The task ends between its spawn and its registration: the status says running, and no task runs.
abbrev ended : World
ended = record spawned {
  state = complete 1 (some (codes "lost socket")) empty.state;
  tasks = remove 1 (1 ∷ []);
}

abbrev ghost : World
ghost = record ended { state = register first ended.state; starting = [] }

ghost_reached : Reach ghost × (ghost.tasks ≡ [])
unfolding remove
ghost_reached = (
  goes_on ended ghost
      (goes_on spawned ended (goes_on empty spawned begins (spawn empty first refl))
        (ends_early spawned [] first [] (some (codes "lost socket")) refl))
      (registers ended [] first [] refl),
  refl,
)

ghost_runs : status (λ t. t) ghost.state ≡ running first.listen first.backend first.protocol 0
unfolding status register
ghost_runs = refl

-- After a crash, an administrative stop does not show: the error is kept.
stop_after_crash :
    status
      (λ t. t)
      (stop_if_running
        (codes "administrative stop")
        (complete 1 (some (codes "lost socket")) (register first empty.state)))
    ≡ crashed (codes "lost socket")
unfolding status register stop_if_running complete is_current keep_error idle_status
stop_after_crash = refl
