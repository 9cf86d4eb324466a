-- ===== src/Oidc/Replay/Refused.antt =====
-- A proof that was accepted is refused when it comes again.
use solid_pod_rs.Prelude.{
  ℕ, suc, ◌+◌, ◌-◌, ◌≤◌, ◌<◌, ◌≡◌, refl, ap, ◌∙◌, true, false, Option, none, some, List, [], ◌∷◌,
  ltb, length, arith, Bool-cases, inl, inr, ◌⊎◌,
}
use solid_pod_rs.Text.{Str, str_eq}
use solid_pod_rs.Text.Laws.{str_eq_iff}
use solid_pod_rs.Text.Map.{lookup, insert_key}
use solid_pod_rs.Lru.{LruCache, take}
use solid_pod_rs.Lru.Laws.{
  lookup-take_front, lookup-take-put, lookup_of_take, lookup-take-suc, take-take,
}
use solid_pod_rs.Oidc.Replay.{DpopReplayCache, fresh, replayed, is_live, judged, check_and_record}

module _ (lru : LruCache ℕ) where
  -- The cache behind a run of checks, each with its time.
  unfoldable pub run : List (Str × ℕ) → DpopReplayCache lru → DpopReplayCache lru
  run [] c = c
  run ((jti, now) ∷ checks) c = run checks (check_and_record lru c jti now).1

  -- No check presents the proof when it has expired.
  abbrev pub Spares : (jti : Str) (first_seen ttl : ℕ) → List (Str × ℕ) → Type 0
  Spares jti first_seen ttl [] = Unit
  Spares jti first_seen ttl ((other, now) ∷ checks) =
      ((str_eq other jti ≡ false) ⊎ (now - first_seen < ttl)) × Spares jti first_seen ttl checks

  -- The proof stands among the first `n` entries.
  record Holds (jti : Str) (first_seen n size ttl : ℕ) (c : DpopReplayCache lru) : Type 0 where
    stands : lookup jti (take n (lru.entries c.entries)) ≡ some first_seen
    capacity : lru.cap c.entries ≡ size
    lifetime : c.ttl ≡ ttl

  put-Holds :
      (c : DpopReplayCache lru) (jti other : Str) (first_seen now n size ttl : ℕ)
      → str_eq other jti ≡ false
      → n < size
      → Holds jti first_seen n size ttl c
      → Holds jti first_seen (suc n) size ttl (record c { entries = lru.put other now c.entries })
  put-Holds c jti other first_seen now n size ttl d h t = record {
    stands =
        rw (lru.entries-put other now c.entries, t.capacity)
          (lookup-take-put jti other first_seen now n size (lru.entries c.entries) d h t.stands);
    capacity = lru.cap-put other now c.entries ∙ t.capacity;
    lifetime = t.lifetime;
  }

  keep-Holds :
      (c : DpopReplayCache lru) (jti : Str) (first_seen n size ttl : ℕ)
      → Holds jti first_seen n size ttl c
      → Holds jti first_seen (suc n) size ttl c
  keep-Holds c jti first_seen n size ttl t = record {
    stands = lookup-take-suc jti first_seen n (lru.entries c.entries) t.stands;
    capacity = t.capacity;
    lifetime = t.lifetime;
  }

  judged-Holds :
      (c : DpopReplayCache lru) (jti other : Str) (first_seen now n size ttl : ℕ) (o : Option ℕ)
      → str_eq other jti ≡ false
      → n < size
      → Holds jti first_seen n size ttl c
      → Holds jti first_seen (suc n) size ttl (judged lru c other now o).1
  unfolding judged
  judged-Holds c jti other first_seen now n size ttl none d h t =
      put-Holds c jti other first_seen now n size ttl d h t
  judged-Holds c jti other first_seen now n size ttl (some seen) d h t =
      elim (Bool-cases (is_live c.ttl now seen)) [
        | inl live ↦ rw live (keep-Holds c jti first_seen n size ttl t)
        | inr dead ↦ rw dead (put-Holds c jti other first_seen now n size ttl d h t)
      ]

  -- A live proof is refused, and nothing changes.
  refused_now :
      (c : DpopReplayCache lru) (jti : Str) (first_seen now n size ttl : ℕ)
      → now - first_seen < ttl
      → Holds jti first_seen n size ttl c
      → check_and_record lru c jti now ≡ (replayed, c)
  unfolding check_and_record judged
  refused_now c jti first_seen now n size ttl live t =
      let found = lookup_of_take jti first_seen n (lru.entries c.entries) t.stands in
      let test : ltb (now - first_seen) c.ttl ≡ true = rw t.lifetime (ground arith) in
      rw (found, test) refl

  check-Holds :
      (c : DpopReplayCache lru) (jti other : Str) (first_seen now n size ttl : ℕ)
      → (str_eq other jti ≡ false) ⊎ (now - first_seen < ttl)
      → n < size
      → Holds jti first_seen n size ttl c
      → Holds jti first_seen (suc n) size ttl (check_and_record lru c other now).1
  unfolding check_and_record
  check-Holds c jti other first_seen now n size ttl (inl d) h t =
      judged-Holds c jti other first_seen now n size ttl (lookup other (lru.entries c.entries)) d h
        t
  check-Holds c jti other first_seen now n size ttl (inr live) h t =
      elim (Bool-cases (str_eq other jti)) [
        | inl same ↦ rw ((str_eq_iff other jti).0 same) (
            rw (refused_now c jti first_seen now n size ttl live t)
              (keep-Holds c jti first_seen n size ttl t))
        | inr differ ↦
            judged-Holds c jti other first_seen now n size ttl
              (lookup other (lru.entries c.entries)) differ h t
      ]

  run-Holds :
      (c : DpopReplayCache lru) (jti : Str) (first_seen n size ttl : ℕ) (checks : List (Str × ℕ))
      → Spares jti first_seen ttl checks
      → n + length checks ≤ size
      → Holds jti first_seen n size ttl c
      → (k : ℕ) × Holds jti first_seen k size ttl (run checks c)
  unfolding run
  run-Holds c jti first_seen n size ttl [] s h t = (n, t)
  run-Holds c jti first_seen n size ttl ((other, now) ∷ checks) (spared, s) h t =
      run-Holds (check_and_record lru c other now).1 jti first_seen (suc n) size ttl checks s
        (omega arith) (check-Holds c jti other first_seen now n size ttl spared (omega arith) t)

  put-first :
      (c : DpopReplayCache lru) (jti : Str) (now : ℕ)
      → 0 < lru.cap c.entries
      → Holds jti now 1 (lru.cap c.entries) c.ttl (record c { entries = lru.put jti now c.entries })
  put-first c jti now h = record {
    stands = rw (lru.entries-put jti now c.entries) (
        rw
          (take-take 1 (lru.cap c.entries) (insert_key jti now (lru.entries c.entries))
            (omega arith))
          (lookup-take_front jti now _ 1 (omega arith)));
    capacity = lru.cap-put jti now c.entries;
    lifetime = refl;
  }

  judged-first :
      (c : DpopReplayCache lru) (jti : Str) (now : ℕ) (o : Option ℕ)
      → 0 < lru.cap c.entries
      → (judged lru c jti now o).0 ≡ fresh
      → Holds jti now 1 (lru.cap c.entries) c.ttl (judged lru c jti now o).1
  unfolding judged
  judged-first c jti now none h f = put-first c jti now h
  judged-first c jti now (some seen) h f = elim (Bool-cases (is_live c.ttl now seen)) [
    | inl live ↦ let bad = rw live at f in cc
    | inr dead ↦ rw dead (put-first c jti now h)
  ]

  -- A proof that was accepted and comes again before its lifetime is over is refused, if fewer
  -- checks than the capacity of the cache were made in between and none of them presented it after
  -- its lifetime.
  pub check_and_record-replayed :
      (c : DpopReplayCache lru) (jti : Str) (first_seen later : ℕ) (checks : List (Str × ℕ))
      → (check_and_record lru c jti first_seen).0 ≡ fresh
      → length checks < lru.cap c.entries
      → Spares jti first_seen c.ttl checks
      → later - first_seen < c.ttl
      → (check_and_record lru (run checks (check_and_record lru c jti first_seen).1) jti later).0
        ≡ replayed
  unfolding check_and_record
  check_and_record-replayed c jti first_seen later checks f h s live =
      let size = lru.cap c.entries in
      let first =
        judged-first c jti first_seen (lookup jti (lru.entries c.entries)) (omega arith) f in
      let (k, t) =
        run-Holds (check_and_record lru c jti first_seen).1 jti first_seen 1 size c.ttl checks s
          (omega arith) first in
      ap (λ r. r.0)
        (refused_now (run checks (check_and_record lru c jti first_seen).1) jti first_seen later k
          size c.ttl live t)
