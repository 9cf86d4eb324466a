-- ===== src/Quota.antt =====
-- The quota of a pod (crates/solid-pod-rs/src/quota/mod.rs). A sidecar that is read is missing, a
-- usage, or an error of the file system or the JSON; whether a write succeeds is an argument. Counters
-- have 64 bits.
pub mod Cap
use solid_pod_rs.Prelude.{
  ℕ, ◌+◌, ◌-◌, Bool, true, false, ◌&&◌, Option, none, some, List, [], ◌∷◌, ◌==◌, ltb, min,
  if◌then◌else◌,
}
use solid_pod_rs.Text.{Str, text, str_eq, starts_with}
use solid_pod_rs.Text.Decimal.{u64_max}
use solid_pod_rs.Text.Map.{Map, lookup, insert_key}

pub record QuotaUsage : Type 0 where
  pub used_bytes : ℕ
  pub limit_bytes : ℕ

pub data Sidecar : Type 0 where
  missing failed : Sidecar
  found : QuotaUsage → Sidecar

-- The sidecars that are not missing, by the pod.
abbrev pub Sidecars : Type 0
Sidecars = Map Sidecar

missing_or : Option Sidecar → Sidecar
missing_or none = missing
missing_or (some s) = s

unfoldable pub read_sidecar : Sidecars → (pod : Str) → Sidecar
unfolding missing_or
read_sidecar files pod = missing_or (lookup pod files)

unfoldable pub write_sidecar : (succeeds : Bool) → (pod : Str) → QuotaUsage → Sidecars → Sidecars
write_sidecar succeeds pod usage files =
    if succeeds then insert_key pod (found usage) files else files

abbrev pub saturating_add : ℕ → ℕ → ℕ
saturating_add a b = min (a + b) u64_max

abbrev pub quota_file : Str
quota_file = text ".quota.json"

pub data QuotaError : Type 0 where
  quota_exceeded : (pod : Str) → (used limit : ℕ) → QuotaError

-- A signed difference.
pub data Delta : Type 0 where
  plus minus : ℕ → Delta

abbrev pub moved : ℕ → Delta → ℕ
moved used (plus n) = saturating_add used n
moved used (minus n) = used - n

-- What a directory gives when it is read. A size that cannot be read is `none`; `other` is neither
-- a file nor a directory; `broken` is an error of `next_entry`.
mutual
  pub data Directory : Type 0 where
    unreadable absent : Directory
    holds : Items → Directory

  pub data Items : Type 0 where
    end broken : Items
    file : (name : Str) → (len : Option ℕ) → Items → Items
    dir : (name : Str) → Directory → Items → Items
    other : (name : Str) → Items → Items

and_add : (total : ℕ) → Option ℕ → Option ℕ
and_add total none = none
and_add total (some n) = some (saturating_add total n)

-- The sizes of the files below a directory, `none` for an error.
unfoldable mutual
  unfolding and_add

  pub dir_size : Directory → Option ℕ
  dir_size unreadable = none
  dir_size absent = some 0
  dir_size (holds items) = items_size items (some 0)

  pub items_size : Items → Option ℕ → Option ℕ
  items_size items none = none
  items_size end (some total) = some total
  items_size broken (some total) = none
  items_size (file name len items) (some total) =
      items_size items (if str_eq name quota_file then some total else and_add total len)
  items_size (dir name below items) (some total) =
      items_size items
        (if str_eq name quota_file then some total else and_add total (dir_size below))
  items_size (other name items) (some total) = items_size items (some total)

-- Which of the orphans can be removed is an argument.
module _ (removable : Str → Bool) where
  abbrev is_swept : Str → Bool
  is_swept name = starts_with (text ".quota.json.tmp-") name && removable name

  sweep_items : Items → Items
  sweep_items end = end
  sweep_items broken = broken
  sweep_items (file name len items) =
      let rest = sweep_items items in if is_swept name then rest else file name len rest
  sweep_items (dir name below items) = dir name below (sweep_items items)
  sweep_items (other name items) =
      let rest = sweep_items items in if is_swept name then rest else other name rest

  unfoldable pub sweep_quota_orphans : Directory → Directory
  unfolding sweep_items
  sweep_quota_orphans unreadable = unreadable
  sweep_quota_orphans absent = absent
  sweep_quota_orphans (holds items) = holds (sweep_items items)

module _ (default_limit : ℕ) where
  abbrev pub with_default : QuotaUsage → QuotaUsage
  with_default u = if u.limit_bytes == 0 then record u { limit_bytes = default_limit } else u

  abbrev pub seed : QuotaUsage
  seed = record { used_bytes = 0; limit_bytes = default_limit }

  effective_of : Sidecar → Option QuotaUsage
  effective_of missing = some seed
  effective_of failed = none
  effective_of (found u) = some (with_default u)

  unfoldable pub effective : Sidecars → (pod : Str) → Option QuotaUsage
  unfolding effective_of
  effective files pod = effective_of (read_sidecar files pod)

  seeded : Option QuotaUsage → QuotaUsage
  seeded none = seed
  seeded (some u) = u

  -- `effective(pod).unwrap_or(…)`.
  unfoldable pub effective_or : Sidecars → (pod : Str) → QuotaUsage
  unfolding seeded
  effective_or files pod = seeded (effective files pod)

  -- `none` is `Ok(())`.
  unfoldable pub check : Sidecars → (pod : Str) → (delta_bytes : ℕ) → Option QuotaError
  check files pod delta_bytes =
      let u = effective_or files pod in
      if delta_bytes == 0
      then none
      else if u.limit_bytes == 0
      then none
      else if ltb u.limit_bytes (saturating_add u.used_bytes delta_bytes)
      then some (quota_exceeded pod u.used_bytes u.limit_bytes)
      else none

  unfoldable pub record_write : (succeeds : Bool) → Sidecars → (pod : Str) → Delta → Sidecars
  record_write succeeds files pod delta =
      let current = effective_or files pod in
      write_sidecar succeeds pod (record current { used_bytes = moved current.used_bytes delta })
        files

  -- The limit of the sidecar, `none` for an error.
  limit_of : Sidecar → Option ℕ
  limit_of missing = some default_limit
  limit_of failed = none
  limit_of (found u) = some (if ltb 0 u.limit_bytes then u.limit_bytes else default_limit)

  reconciled : (actual limit : Option ℕ) → Option QuotaUsage
  reconciled none limit = none
  reconciled (some actual) none = none
  reconciled (some actual) (some limit) = some (record { used_bytes = actual; limit_bytes = limit })

  written :
      (succeeds : Bool) → Sidecars → (pod : Str) → Option QuotaUsage → Option QuotaUsage × Sidecars
  written succeeds files pod none = (none, files)
  written succeeds files pod (some u) =
      (if succeeds then some u else none, write_sidecar succeeds pod u files)

  -- The directory is that of the pod, before the sweep.
  unfoldable pub reconcile :
      (removable : Str → Bool)
      → (succeeds : Bool) → Directory
      → Sidecars
      → (pod : Str) → Option QuotaUsage × Sidecars
  unfolding written reconciled limit_of
  reconcile removable succeeds directory files pod = written succeeds files pod (
      reconciled (dir_size (sweep_quota_orphans removable directory))
        (limit_of (read_sidecar files pod)))

  usage_of : Sidecar → Option QuotaUsage
  usage_of missing = none
  usage_of failed = none
  usage_of (found u) = some (with_default u)

  unfoldable pub usage : Sidecars → (pod : Str) → Option QuotaUsage
  unfolding usage_of
  usage files pod = usage_of (read_sidecar files pod)
