-- ===== src/Scheduler/Lease.antt =====
-- src/bridge/scheduler/lease.py: leases, one file for each, and their expiry. The directory is the
-- list of its files in the order in which they are visited, by the lease id in the name.
pub mod Laws
use codearts_bridge.Prelude.{
  ℕ, ◌+◌, String, Bool, true, false, not, ◌&&◌, Option, none, some, List, [], ◌∷◌, ◌==◌, ltb,
  if◌then◌else◌,
}
use codearts_bridge.Core.Value.{File, missing, broken, content}
use codearts_bridge.Core.Errors.{Result, ok, raise, json_decode, ◌>>=◌}
use codearts_bridge.Core.Models.{Lease}
use codearts_bridge.Scheduler.Clock.{Clock, minutes}

abbrev pub Leases : Type 0
Leases = List (String × File Lease)

unfoldable pub lease_file : String → Leases → File Lease
lease_file lease_id [] = missing
lease_file lease_id ((name, file) ∷ dir) =
    if name == lease_id then file else lease_file lease_id dir

-- A file is replaced where it stands, and a new one comes last.
unfoldable pub write_lease : String → Lease → Leases → Leases
write_lease lease_id lease [] = (lease_id, content lease) ∷ []
write_lease lease_id lease ((name, file) ∷ dir) =
    if name == lease_id
    then (lease_id, content lease) ∷ dir
    else (name, file) ∷ write_lease lease_id lease dir

-- `path.unlink()`
unfoldable pub unlink : String → Leases → Leases
unlink lease_id [] = []
unlink lease_id ((name, file) ∷ dir) =
    let rest = unlink lease_id dir in if name == lease_id then rest else (name, file) ∷ rest

unfoldable pub exists : String → Leases → Bool
exists lease_id [] = false
exists lease_id ((name, file) ∷ dir) = if name == lease_id then true else exists lease_id dir

-- `_now() > expires`, and true for a time that does not parse
unfoldable pub is_late : ℕ → Option ℕ → Bool
is_late now none = true
is_late now (some expires) = ltb expires now

unfoldable pub release_lease : String → Leases → Bool × Leases
release_lease lease_id dir =
    if exists lease_id dir then (true, unlink lease_id dir) else (false, dir)

module _ (clock : Clock) where
  -- The lease that is created at the time `now` under the generated id.
  unfoldable pub new_lease : ℕ → String → String → String → ℕ → Lease
  new_lease now lease_id task_id worker_id ttl_minutes = record {
    lease_id = lease_id;
    task_id = task_id;
    worker_id = worker_id;
    expires_at = clock.isoformat (now + minutes ttl_minutes);
    heartbeat_at = clock.isoformat now;
    created_at = clock.isoformat now;
  }

  unfoldable pub create_lease : ℕ → String → Leases → String → String → ℕ → Lease × Leases
  create_lease now lease_id dir task_id worker_id ttl_minutes =
      let lease = new_lease now lease_id task_id worker_id ttl_minutes in
      (lease, write_lease lease_id lease dir)

  unfoldable pub renewed : ℕ → ℕ → Lease → Lease
  renewed now ttl_minutes lease = record lease {
    expires_at = clock.isoformat (now + minutes ttl_minutes);
    heartbeat_at = clock.isoformat now;
  }

  unfoldable pub renew_file : ℕ → String → ℕ → Leases → File Lease → Result (Option Lease) × Leases
  renew_file now lease_id ttl_minutes dir missing = (ok none, dir)
  renew_file now lease_id ttl_minutes dir broken = (raise json_decode, dir)
  renew_file now lease_id ttl_minutes dir (content lease) =
      let lease' = renewed now ttl_minutes lease in
      (ok (some lease'), write_lease lease_id lease' dir)

  unfoldable pub renew_lease : ℕ → Leases → String → ℕ → Result (Option Lease) × Leases
  renew_lease now dir lease_id ttl_minutes =
      renew_file now lease_id ttl_minutes dir (lease_file lease_id dir)

  unfoldable pub is_expired : ℕ → Lease → Bool
  is_expired now lease = is_late now (clock.fromisoformat lease.expires_at)

  -- A file that is gone is passed over; one that does not parse raises.
  unfoldable pub get_active_lease : ℕ → Leases → String → Result (Option Lease)
  get_active_lease now [] task_id = ok none
  get_active_lease now ((name, missing) ∷ dir) task_id = get_active_lease now dir task_id
  get_active_lease now ((name, broken) ∷ dir) task_id = raise json_decode
  get_active_lease now ((name, content lease) ∷ dir) task_id =
      let rest = get_active_lease now dir task_id in
      if lease.task_id == task_id && not (is_expired now lease) then ok (some lease) else rest

  unfoldable pub get_expired_leases : ℕ → Leases → Result (List Lease)
  get_expired_leases now [] = ok []
  get_expired_leases now ((name, missing) ∷ dir) = get_expired_leases now dir
  get_expired_leases now ((name, broken) ∷ dir) = raise json_decode
  get_expired_leases now ((name, content lease) ∷ dir) = get_expired_leases now dir >>= λ rest.
      ok (if is_expired now lease then lease ∷ rest else rest)
