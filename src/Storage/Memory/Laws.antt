-- ===== src/Storage/Memory/Laws.antt =====
-- What the backend gives back, and what it lists.
use solid_pod_rs.Prelude.{
  ℕ, ◌≡◌, refl, true, Option, none, some, List, if◌then◌else◌, arith, inl, inr, ◌⊎◌,
}
use solid_pod_rs.Error.{not_found, ok, err}
use solid_pod_rs.Text.{Str, str_eq}
use solid_pod_rs.Text.Map.{lookup, lookup-remove_key, lookup-insert_key}
use solid_pod_rs.Storage.Memory.{
  MemoryBackend, Entry, normalize, found, get_entry, put, meta_of, delete, removed,
}

pub get_entry-put :
    (compute_etag : List ℕ → Str) (now : ℕ) (s : MemoryBackend) (path other : Str) (body : List ℕ)
    (ct : Str)
    → get_entry ((put compute_etag now s path body ct).1) other ≡ (
        if str_eq (normalize path) (normalize other)
        then ok (record { body = body; meta = meta_of compute_etag now body ct })
        else get_entry s other)
unfolding get_entry put found
get_entry-put compute_etag now s path other body ct = ground (
  arith,
  lookup-insert_key (normalize path) (normalize other)
      (record { body = body; meta = meta_of compute_etag now body ct }) s.store,
)

-- A `delete` of a path that is not there gives `not_found` and changes nothing; any other gives
-- success, after which exactly the paths that are normalized to the same key are gone.
pub get_entry-delete :
    (s : MemoryBackend) (path other : Str)
    → ((get_entry s path ≡ err not_found) × (delete s path ≡ (err not_found, s)))
      ⊎ (((delete s path).0 ≡ ok true)
          × (get_entry ((delete s path).1) other ≡ (
              if str_eq (normalize path) (normalize other)
              then err not_found
              else get_entry s other)))
unfolding get_entry delete found removed
get_entry-delete s path other = go (lookup (normalize path) s.store) refl
  where
    go :
        (o : Option Entry)
        → lookup (normalize path) s.store ≡ o
        → ((found o ≡ err not_found) × (removed s (normalize path) o ≡ (err not_found, s)))
          ⊎ (((removed s (normalize path) o).0 ≡ ok true)
              × (get_entry ((removed s (normalize path) o).1) other ≡ (
                  if str_eq (normalize path) (normalize other)
                  then err not_found
                  else get_entry s other)))
    go none e = inl (refl, refl)
    go (some x) e =
        inr (refl, ground (arith, lookup-remove_key (normalize path) (normalize other) s.store))
