-- ===== src/Scheduler/Lease/Laws.antt =====
-- What holds of the leases of src/bridge/scheduler/lease.py.
use codearts_bridge.Prelude.{
  ℕ, ◌+◌, ◌≤◌, ◌<◌, String, ◌≡◌, refl, ◌∙◌, inl, inr, ◌↔◌, true, false, none, some, [], ◌∷◌, ◌==◌,
  ◌≢◌, eq_iff, eq_refl, arith, if◌then◌else◌, Bool-cases,
}
use codearts_bridge.Core.Value.{missing, broken, content}
use codearts_bridge.Core.Errors.{ok}
use codearts_bridge.Core.Models.{Lease}
use codearts_bridge.Scheduler.Clock.{Clock, minutes}
use codearts_bridge.Scheduler.Lease.{
  Leases, lease_file, write_lease, unlink, exists, is_late, release_lease, new_lease, create_lease,
  is_expired, get_active_lease,
}

pub lease_file-write_lease :
    (k j : String) (lease : Lease) (dir : Leases)
    → lease_file j (write_lease k lease dir) ≡ (if k == j then content lease else lease_file j dir)
unfolding lease_file write_lease
lease_file-write_lease k j lease [] = refl
lease_file-write_lease k j lease ((i, f) ∷ dir) =
    ground (arith, eq_iff k j, eq_iff i k, eq_iff i j, lease_file-write_lease k j lease dir)

lease_file-unlink :
    (k j : String) (dir : Leases)
    → lease_file j (unlink k dir) ≡ (if k == j then missing else lease_file j dir)
unfolding lease_file unlink
lease_file-unlink k j [] = ground arith
lease_file-unlink k j ((i, f) ∷ dir) =
    ground (arith, eq_iff k j, eq_iff i k, eq_iff i j, lease_file-unlink k j dir)

lease_file_absent :
    (k j : String) (dir : Leases)
    → exists k dir ≡ false
    → lease_file j dir ≡ (if k == j then missing else lease_file j dir)
unfolding lease_file exists
lease_file_absent k j [] h = ground arith
lease_file_absent k j ((i, f) ∷ dir) h =
    ground (arith, eq_iff k j, eq_iff i k, eq_iff i j, lease_file_absent k j dir)

-- A released lease is gone, and every other file is as it was.
pub lease_file-release_lease :
    (k j : String) (dir : Leases)
    → lease_file j (release_lease k dir).1 ≡ (if k == j then missing else lease_file j dir)
unfolding release_lease
lease_file-release_lease k j dir = elim (Bool-cases (exists k dir)) [
  | inl e ↦ rw e (lease_file-unlink k j dir)
  | inr e ↦ rw e (lease_file_absent k j dir e)
]

content-injective : {a b : Lease} → content a ≡ content b → a ≡ b
content-injective h = cc

module _ (clock : Clock) where
  -- A lease expires exactly after its time to live.
  pub is_expired-new_lease :
      (now later ttl : ℕ) (lease_id task_id worker_id : String)
      → (is_expired clock later (new_lease clock now lease_id task_id worker_id ttl) ≡ true)
        ↔ (now + minutes ttl < later)
  unfolding is_expired new_lease is_late
  is_expired-new_lease now later ttl lease_id task_id worker_id =
      rw clock.fromisoformat-isoformat (λ h. ground arith, λ h. ground arith)

  pub not_late :
      (now later ttl : ℕ) (lease_id task_id worker_id : String)
      → later ≤ now + minutes ttl
      → is_expired clock later (new_lease clock now lease_id task_id worker_id ttl) ≡ false
  unfolding is_expired new_lease is_late
  not_late now later ttl lease_id task_id worker_id h =
      rw clock.fromisoformat-isoformat (ground arith)

  -- The lease that the search returns is of the task and not expired.
  pub get_active_lease_sound :
      (now : ℕ) (dir : Leases) (task_id : String) (lease : Lease)
      → get_active_lease clock now dir task_id ≡ ok (some lease)
      → (lease.task_id ≡ task_id) × (is_expired clock now lease ≡ false)
  unfolding get_active_lease
  get_active_lease_sound now [] task_id lease h = cc
  get_active_lease_sound now ((name, missing) ∷ dir) task_id lease h =
      get_active_lease_sound now dir task_id lease h
  get_active_lease_sound now ((name, broken) ∷ dir) task_id lease h = cc
  get_active_lease_sound now ((name, content found) ∷ dir) task_id lease h =
      ground (arith, get_active_lease_sound now dir task_id lease, eq_iff found.task_id task_id)

  -- An active lease in the directory is not overlooked: the search answers with a lease or raises.
  pub get_active_lease_complete :
      (now : ℕ) (dir : Leases) (task_id name : String) (lease : Lease)
      → lease_file name dir ≡ content lease
      → lease.task_id ≡ task_id
      → is_expired clock now lease ≡ false
      → get_active_lease clock now dir task_id ≢ ok none
  unfolding get_active_lease lease_file
  get_active_lease_complete now [] task_id name lease f t e h = cc
  get_active_lease_complete now ((i, missing) ∷ dir) task_id name lease f t e h =
      get_active_lease_complete now dir task_id name lease (ground arith) t e h
  get_active_lease_complete now ((i, broken) ∷ dir) task_id name lease f t e h = cc
  get_active_lease_complete now ((i, content found) ∷ dir) task_id name lease f t e h =
      elim (Bool-cases (i == name)) [
        | inl same ↦
            let is_found : found ≡ lease = content-injective (rw same at f) in
            absurd (ground (arith, eq_iff found.task_id task_id))
        | inr other ↦
            get_active_lease_complete now dir task_id name lease (rw other at f) t e (ground arith)
      ]

  -- A fresh lease is found again: within its time to live a search for its task answers with a
  -- lease of that task, or a file that does not parse stops it.
  pub get_active_lease-create_lease :
      (now later ttl : ℕ) (lease_id task_id worker_id : String) (dir : Leases)
      → later ≤ now + minutes ttl
      → get_active_lease clock later
          (create_lease clock now lease_id dir task_id worker_id ttl).1
          task_id
        ≢ ok none
  unfolding create_lease
  get_active_lease-create_lease now later ttl lease_id task_id worker_id dir h =
      get_active_lease_complete later _ task_id lease_id
        (new_lease clock now lease_id task_id worker_id ttl)
        (lease_file-write_lease lease_id lease_id _ dir ∙ simp eq_refl) (unfold new_lease in refl)
        (not_late now later ttl lease_id task_id worker_id h)
