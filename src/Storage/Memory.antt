-- ===== src/Storage/Memory.antt =====
-- The backend in memory (crates/solid-pod-rs/src/storage/memory.rs, and the types of
-- crates/solid-pod-rs/src/storage/mod.rs). The digest of a body and the time are arguments. An
-- operation under the lock is one step; the events sent to the watchers are a list, the last one
-- first.
pub mod Laws
pub mod Listing
use Prim.Native.Nat.{Ordering}
use solid_pod_rs.Prelude.{
  ℕ, ◌==◌, Bool, true, false, Option, none, some, List, [], ◌∷◌, ◌++◌, if◌then◌else◌, length, not,
}
use solid_pod_rs.Error.{not_found, Result, ok, err}
use solid_pod_rs.Text.{
  Str, text, str_eq, is_empty, is_some, starts_with, ends_with, strip_prefix, trim_end_matches,
  break_at,
}
use solid_pod_rs.Text.Map.{Map, lookup, remove_key, insert_key, keys}
use solid_pod_rs.Ldp.Graph.{str_cmp}

pub record ResourceMeta : Type 0 where
  pub etag : Str
  pub modified : ℕ
  pub size : ℕ
  pub content_type : Str
  pub links : List Str

pub data StorageEvent : Type 0 where
  created updated deleted : Str → StorageEvent

pub record Entry : Type 0 where
  pub body : List ℕ
  pub meta : ResourceMeta

pub record MemoryBackend : Type 0 where
  pub store : Map Entry
  pub events : List StorageEvent

abbrev pub new_backend : MemoryBackend
new_backend = record { store = []; events = [] }

unfoldable pub normalize : Str → Str
normalize path =
    if is_empty path
    then text "/"
    else if starts_with (text "/") path
    then path
    else text "/" ++ path

unfoldable pub is_under : Str → Str → Bool
is_under child container =
    if str_eq container (text "/")
    then not (str_eq child (text "/"))
    else let c = trim_end_matches b'/' container in
      if str_eq child c then true else starts_with (c ++ text "/") child

found {ℓ} : {A : Type ℓ} → Option A → Result A
found none = err not_found
found (some a) = ok a

unfoldable pub get_entry : MemoryBackend → Str → Result Entry
unfolding found
get_entry s path = found (lookup (normalize path) s.store)

module _ (compute_etag : List ℕ → Str) where
  abbrev pub meta_of : (now : ℕ) (body : List ℕ) (content_type : Str) → ResourceMeta
  meta_of now body content_type = record {
    etag = compute_etag body;
    modified = now;
    size = length body;
    content_type = content_type;
    links = [];
  }

  unfoldable pub put : (now : ℕ) → MemoryBackend → Str → List ℕ → Str → ResourceMeta × MemoryBackend
  put now s path body content_type =
      let key = normalize path in
      let meta = meta_of now body content_type in
      let existed = is_some (lookup key s.store) in
      (
        meta,
        record {
          store = insert_key key (record { body = body; meta = meta }) s.store;
          events = (if existed then updated key else created key) ∷ s.events;
        },
      )

removed : MemoryBackend → Str → Option Entry → Result Bool × MemoryBackend
removed s key none = (err not_found, s)
removed s key (some e) =
    (ok true, record { store = remove_key key s.store; events = deleted key ∷ s.events })

-- `Ok(())` is `ok true`.
unfoldable pub delete : MemoryBackend → Str → Result Bool × MemoryBackend
unfolding removed
delete s path = let key = normalize path in removed s key (lookup key s.store)

unfoldable pub exists : MemoryBackend → Str → Bool
exists s path = is_some (lookup (normalize path) s.store)

child_name : Str × Str → Str
child_name (name, []) = name
child_name (name, c ∷ rest) = name ++ c ∷ []

-- The child that a key shows in a container, if any.
unfoldable pub child_of : Str → Str → Option Str
unfolding child_name
child_of container key = elim (strip_prefix container key) [
  | none ↦ none
  | some remainder ↦
      if is_empty remainder then none else some (child_name (break_at (λ c. c == b'/') remainder))
]

place_name : Ordering → Str → Str → List Str → List Str → List Str
place_name Ordering.lt n m seen later = n ∷ m ∷ seen
place_name Ordering.eq n m seen later = m ∷ seen
place_name Ordering.gt n m seen later = m ∷ later

-- `insert` on the `BTreeSet` of the names seen.
unfoldable pub insert_name : Str → List Str → List Str
unfolding place_name
insert_name n [] = n ∷ []
insert_name n (m ∷ seen) = place_name (str_cmp n m) n m seen (insert_name n seen)

abbrev pub insert_child : Option Str → List Str → List Str
insert_child none seen = seen
insert_child (some name) seen = insert_name name seen

unfoldable pub children : Str → List Str → List Str
unfolding child_of insert_name
children container [] = []
children container (key ∷ ks) = insert_child (child_of container key) (children container ks)

abbrev pub with_slash : Str → Str
with_slash container = if ends_with (text "/") container then container else container ++ text "/"

unfoldable pub list : MemoryBackend → Str → List Str
unfolding children
list s container = children (with_slash (normalize container)) (keys s.store)
