-- ===== src/BrowserPool/Tests.antt =====
-- The theorems about the page pool at concrete pools.
use localshell_web_superviso.Base.{none, some, [], ◌∷◌}
use localshell_web_superviso.BrowserPool.{PageRole, ProbeTarget, PagePool, pos, new_pool}
use localshell_web_superviso.BrowserPool.Capacity.{Fits, register, after_calls, pool-Fits}

-- the second page does not fit
pool-Fits_example : Fits (
    after_calls
      (new_pool 1 1)
      (register "p" PageRole.active none 5 ∷ register "q" PageRole.active none 6 ∷ []))
pool-Fits_example =
    pool-Fits 1 1 (register "p" PageRole.active none 5 ∷ register "q" PageRole.active none 6 ∷ [])

abbrev seen : ProbeTarget
seen = record { worker_id = "a"; conversation_url = "u"; last_probed_at = some 3; priority = pos 1 }

abbrev fresh : ProbeTarget
fresh = record { worker_id = "b"; conversation_url = "v"; last_probed_at = none; priority = pos 1 }

abbrev pool : PagePool
pool = record {
  max_active_pages = 1;
  max_probe_pages = 1;
  leases = [];
  probe_targets = seen ∷ fresh ∷ [];
}
