-- ===== src/Idp/Session.antt =====
-- The store of sessions and authorisation codes (crates/solid-pod-rs-idp/src/session.rs). The random
-- identifiers and the time are arguments; an operation under the lock is one step. `elapsed` is
-- zero for an instant in the future.
pub mod Codes
use solid_pod_rs.Prelude.{
  ℕ, ◌-◌, ◌*◌, Bool, true, false, Option, none, some, List, [], ◌∷◌, if◌then◌else◌, ltb,
}
use solid_pod_rs.Text.{Str}
use solid_pod_rs.Text.Map.{Map, lookup, remove_key, insert_key}

pub data SessionError : Type 0 where
  unknown expired : SessionError

pub record AuthCodeRecord : Type 0 where
  pub code : Str
  pub client_id : Str
  pub account_id : Str
  pub redirect_uri : Str
  pub code_challenge : Option Str
  pub issued_at : ℕ
  pub requested_scope : Option Str

pub record SessionRecord : Type 0 where
  pub account_id : Str
  pub created_at : ℕ
  pub last_access : ℕ

pub record SessionStore : Type 0 where
  pub sessions : Map SessionRecord
  pub codes : Map AuthCodeRecord
  pub session_ttl : ℕ
  pub code_ttl : ℕ

-- Times are in seconds.
abbrev pub new_store : SessionStore
new_store = record { sessions = []; codes = []; session_ttl = 14 * 24 * 3600; code_ttl = 10 * 60 }

abbrev pub with_ttls : ℕ → ℕ → SessionStore → SessionStore
with_ttls session_ttl code_ttl s = record s { session_ttl = session_ttl; code_ttl = code_ttl }

abbrev pub elapsed : (now since : ℕ) → ℕ
elapsed now since = now - since

unfoldable pub create_session : (now : ℕ) (id account_id : Str) → SessionStore → SessionStore
create_session now id account_id s = record s {
  sessions =
      insert_key id (record { account_id = account_id; created_at = now; last_access = now })
        s.sessions;
}

pub data Looked : Type 0 where
  hit : SessionRecord → Looked
  miss : SessionError → Looked

touched : ℕ → Str → SessionStore → Option SessionRecord → Looked × SessionStore
touched now id s none = (miss unknown, s)
touched now id s (some entry) =
    let fresh = record entry { last_access = now } in
    if ltb s.session_ttl (elapsed now entry.last_access)
    then (miss expired, record s { sessions = remove_key id s.sessions })
    else (hit fresh, record s { sessions = insert_key id fresh s.sessions })

-- `lookup`.
unfoldable pub lookup_session : (now : ℕ) (id : Str) → SessionStore → Looked × SessionStore
unfolding touched
lookup_session now id s = touched now id s (lookup id s.sessions)

unfoldable pub revoke : Str → SessionStore → SessionStore
revoke id s = record s { sessions = remove_key id s.sessions }

unfoldable pub issue_code :
    (now : ℕ) (code client_id account_id redirect_uri : Str)
    (code_challenge requested_scope : Option Str)
    → SessionStore
    → AuthCodeRecord × SessionStore
issue_code now code client_id account_id redirect_uri code_challenge requested_scope s =
    let rec : AuthCodeRecord = record {
      code = code;
      client_id = client_id;
      account_id = account_id;
      redirect_uri = redirect_uri;
      code_challenge = code_challenge;
      issued_at = now;
      requested_scope = requested_scope;
    } in
    (rec, record s { codes = insert_key code rec s.codes })

redeemed : ℕ → Str → SessionStore → Option AuthCodeRecord → Option AuthCodeRecord × SessionStore
redeemed now code s none = (none, s)
redeemed now code s (some rec) =
    let t = record s { codes = remove_key code s.codes } in
    if ltb s.code_ttl (elapsed now rec.issued_at) then (none, t) else (some rec, t)

unfoldable pub take_code :
    (now : ℕ) (code : Str) → SessionStore → Option AuthCodeRecord × SessionStore
unfolding redeemed
take_code now code s = redeemed now code s (lookup code s.codes)
