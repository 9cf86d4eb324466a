-- ===== src/Wac/Document.antt =====
-- The ACL document (crates/solid-pod-rs/src/wac/document.rs). The `@context` of a document, a JSON
-- value that no decision reads, is left out.
use solid_pod_rs.Prelude.{◌≡◌, refl, Option, none, some, List, [], ◌∷◌}
use solid_pod_rs.Text.{Str}

pub record IdRef : Type 0 where
  pub id : Str

pub data IdOrIds : Type 0 where
  single : IdRef → IdOrIds
  multiple : List IdRef → IdOrIds

abbrev ids_in : List IdRef → List Str
ids_in [] = []
ids_in (r ∷ rs) = r.id ∷ ids_in rs

unfoldable pub get_ids : Option IdOrIds → List Str
get_ids none = []
get_ids (some (single r)) = r.id ∷ []
get_ids (some (multiple refs)) = ids_in refs

abbrev pub refs_of : List Str → List IdRef
refs_of [] = []
refs_of (s ∷ ss) = record { id = s } ∷ refs_of ss

unfoldable pub ids_of : List Str → IdOrIds
ids_of (item ∷ []) = single (record { id = item })
ids_of items = multiple (refs_of items)

ids_in-refs_of : (items : List Str) → ids_in (refs_of items) ≡ items
ids_in-refs_of [] = refl
ids_in-refs_of (s ∷ ss) = rw (ids_in-refs_of ss)

-- Reading back what `ids_of` wrote gives the same list.
pub get_ids-ids_of : (items : List Str) → get_ids (some (ids_of items)) ≡ items
unfolding get_ids ids_of
get_ids-ids_of [] = refl
get_ids-ids_of (s ∷ []) = refl
get_ids-ids_of (s ∷ t ∷ ss) = ids_in-refs_of (s ∷ t ∷ ss)

-- The bodies of the two kinds of condition (client.rs, issuer.rs).
pub record ClientConditionBody : Type 0 where
  pub client : Option IdOrIds
  pub client_group : Option IdOrIds
  pub client_class : Option IdOrIds

pub record IssuerConditionBody : Type 0 where
  pub issuer : Option IdOrIds
  pub issuer_group : Option IdOrIds
  pub issuer_class : Option IdOrIds

pub data Condition : Type 0 where
  client : ClientConditionBody → Condition
  issuer : IssuerConditionBody → Condition
  unknown : Str → Condition

pub record AclAuthorization : Type 0 where
  pub id : Option Str
  pub type : Option Str
  pub agent : Option IdOrIds
  pub agent_class : Option IdOrIds
  pub agent_group : Option IdOrIds
  pub origin : Option IdOrIds
  pub access_to : Option IdOrIds
  pub default : Option IdOrIds
  pub mode : Option IdOrIds
  pub condition : Option (List Condition)

pub record AclDocument : Type 0 where
  pub graph : Option (List AclAuthorization)
