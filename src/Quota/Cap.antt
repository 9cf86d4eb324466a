-- ===== src/Quota/Cap.antt =====
-- Writes that are checked first stay below the cap.
use solid_pod_rs.Prelude.{
  ℕ, ◌≤◌, ◌≡◌, ◌⊎◌, inl, inr, refl, Bool, true, false, none, some, List, [], ◌∷◌, if◌then◌else◌,
  arith, Bool-cases, Option-cases,
}
use solid_pod_rs.Text.{Str, str_eq}
use solid_pod_rs.Text.Map.{lookup-insert_key}
use solid_pod_rs.Quota.{
  QuotaUsage, Sidecar, missing, failed, found, Sidecars, missing_or, read_sidecar, write_sidecar,
  Delta, plus, minus, moved, with_default, effective_of, effective, seeded, effective_or, check,
  record_write,
}

-- What a handler does: a checked write of a size, or a deletion.
pub data Op : Type 0 where
  upload remove : (succeeds : Bool) → (pod : Str) → ℕ → Op

abbrev pub IsWithinCap : QuotaUsage → Type 0
IsWithinCap u = (u.limit_bytes ≡ 0) ⊎ (u.used_bytes ≤ u.limit_bytes)

read-write :
    (b : Bool) (pod other : Str) (u : QuotaUsage) (files : Sidecars)
    → read_sidecar (write_sidecar b pod u files) other ≡ (
        if b
        then (if str_eq pod other then found u else read_sidecar files other)
        else read_sidecar files other)
unfolding read_sidecar write_sidecar missing_or
read-write true pod other u files = rw (lookup-insert_key pod other (found u) files) (ground arith)
read-write false pod other u files = refl

module _ (default_limit : ℕ) where
  unfoldable pub apply : Sidecars → Op → Sidecars
  apply files (upload succeeds pod n) = elim (check default_limit files pod n) [
    | none ↦ record_write default_limit succeeds files pod (plus n)
    | some e ↦ files
  ]
  apply files (remove succeeds pod n) = record_write default_limit succeeds files pod (minus n)

  unfoldable pub run : Sidecars → List Op → Sidecars
  unfolding apply
  run files [] = files
  run files (op ∷ ops) = run (apply files op) ops

  abbrev pub IsCapped : Sidecars → Type 0
  IsCapped files = (pod : Str) → IsWithinCap (effective_or default_limit files pod)

  seeded-limit :
      (s : Sidecar)
      → (seeded default_limit (effective_of default_limit s)).limit_bytes ≡ 0
      → default_limit ≡ 0
  unfolding seeded effective_of
  seeded-limit missing h = h
  seeded-limit failed h = h
  seeded-limit (found u) h = ground arith

  effective_or-limit :
      (files : Sidecars) (pod : Str)
      → (effective_or default_limit files pod).limit_bytes ≡ 0
      → default_limit ≡ 0
  unfolding effective_or effective
  effective_or-limit files pod h = seeded-limit (read_sidecar files pod) h

  with_default-IsWithinCap :
      (u : QuotaUsage)
      → (u.limit_bytes ≡ 0 → default_limit ≡ 0)
      → IsWithinCap u
      → IsWithinCap (with_default default_limit u)
  with_default-IsWithinCap u z h = ground arith

  effective_or-write :
      (b : Bool) (pod other : Str) (u : QuotaUsage) (files : Sidecars)
      → effective_or default_limit (write_sidecar b pod u files) other ≡ (
          if b
          then (if str_eq pod other
              then with_default default_limit u
              else effective_or default_limit files other)
          else effective_or default_limit files other)
  unfolding effective_or effective seeded effective_of
  effective_or-write true pod other u files = elim (Bool-cases (str_eq pod other)) [
    | inl e ↦ rw (read-write true pod other u files, e) refl
    | inr e ↦ rw (read-write true pod other u files, e) refl
  ]
  effective_or-write false pod other u files = rw (read-write false pod other u files) refl

  record-IsCapped :
      (b : Bool) (pod : Str) (d : Delta) (files : Sidecars)
      → IsCapped files
      → IsWithinCap (record (effective_or default_limit files pod) {
        used_bytes = moved (effective_or default_limit files pod).used_bytes d;
      })
      → IsCapped (record_write default_limit b files pod d)
  unfolding record_write
  record-IsCapped false pod d files h new other =
      rw (effective_or-write false pod other _ files) (h other)
  record-IsCapped true pod d files h new other =
      let u : QuotaUsage = record (effective_or default_limit files pod) {
        used_bytes = moved (effective_or default_limit files pod).used_bytes d;
      } in
      elim (Bool-cases (str_eq pod other)) [
        | inl e ↦
            rw (effective_or-write true pod other u files, e)
              (with_default-IsWithinCap u (effective_or-limit files pod) new)
        | inr e ↦ rw (effective_or-write true pod other u files, e) (h other)
      ]

  check-room :
      (files : Sidecars) (pod : Str) (n : ℕ)
      → IsCapped files
      → check default_limit files pod n ≡ none
      → IsWithinCap (record (effective_or default_limit files pod) {
        used_bytes = moved (effective_or default_limit files pod).used_bytes (plus n);
      })
  unfolding check
  check-room files pod n h e = let now = h pod in ground arith

  apply-IsCapped : (files : Sidecars) (op : Op) → IsCapped files → IsCapped (apply files op)
  unfolding apply
  apply-IsCapped files (upload b pod n) h = elim (Option-cases (check default_limit files pod n)) [
    | inl e ↦ rw (apply, e) (record-IsCapped b pod (plus n) files h (check-room files pod n h e))
    | inr (err, e) ↦ rw (apply, e) h
  ]
  apply-IsCapped files (remove b pod n) h =
      record-IsCapped b pod (minus n) files h (let now = h pod in ground arith)

  -- If the usage of every pod is at most its limit, or its limit is zero, which means none, then it
  -- is so after any sequence of writes that are recorded only if the check lets them pass, and of
  -- deletions, to any pods, whichever of the recordings fail.
  pub run-IsCapped : (files : Sidecars) (ops : List Op) → IsCapped files → IsCapped (run files ops)
  unfolding run
  run-IsCapped files [] h = h
  run-IsCapped files (op ∷ ops) h = run-IsCapped (apply files op) ops (apply-IsCapped files op h)
