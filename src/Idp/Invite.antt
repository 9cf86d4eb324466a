-- ===== src/Idp/Invite.antt =====
-- Invitations (crates/solid-pod-rs-idp/src/invites.rs). A token is minted by the caller; expiry is a
-- number of seconds.
use solid_pod_rs.Prelude.{
  ℕ, ◌*◌, ◌≡◌, refl, ◌∙◌, not, Option, none, some, min, if◌then◌else◌, Option-cases, inl, inr,
}
use solid_pod_rs.Text.{Str, text, str_eq, is_empty, trim, is_ascii_digit, break_at}
use solid_pod_rs.Text.Laws.{str_eq_refl}
use solid_pod_rs.Text.Decimal.{parse_u64, u64_max}
use solid_pod_rs.Text.Map.{Map, lookup, insert_key, lookup-insert_key}

pub record Invite : Type 0 where
  pub token : Str
  pub max_uses : Option ℕ
  pub expires_at : Option ℕ

abbrev pub InviteStore : Type 0
InviteStore = Map Invite

unfoldable pub get_invite : InviteStore → Str → Option Invite
get_invite store token = lookup token store

or_insert : Option Invite → Invite → InviteStore → InviteStore
or_insert none invite store = insert_key invite.token invite store
or_insert (some old) invite store = store

-- `entry(token).or_insert(invite)`.
unfoldable pub insert_invite : Invite → InviteStore → InviteStore
unfolding or_insert
insert_invite invite store = or_insert (lookup invite.token store) invite store

abbrev pub saturating_mul : ℕ → ℕ → ℕ
saturating_mul a b = min (a * b) u64_max

in_unit : Str → Option ℕ → Option ℕ
in_unit unit none = none
in_unit unit (some n) =
    if str_eq unit (text "s")
    then some n
    else if str_eq unit (text "m")
    then some (saturating_mul n 60)
    else if str_eq unit (text "h")
    then some (saturating_mul n 3600)
    else if str_eq unit (text "d")
    then some (saturating_mul n 86400)
    else if str_eq unit (text "w")
    then some (saturating_mul n 604800)
    else none

with_unit : Str × Str → Option ℕ
unfolding in_unit
with_unit (num_part, unit) = if is_empty unit then none else in_unit unit (parse_u64 num_part)

plain_or_unit : Str → Option ℕ → Option ℕ
unfolding with_unit
plain_or_unit trimmed (some n) = some n
plain_or_unit trimmed none = with_unit (break_at (λ c. not (is_ascii_digit c)) trimmed)

-- In seconds; an error is `none`.
unfoldable pub parse_duration : Str → Option ℕ
unfolding plain_or_unit
parse_duration input =
    let trimmed = trim input in
    if is_empty trimmed then none else plain_or_unit trimmed (parse_u64 trimmed)

-- The first invitation with a token stays.
pub get_invite-insert :
    (invite : Invite) (store : InviteStore)
    → get_invite (insert_invite invite store) invite.token
      ≡ (elim (get_invite store invite.token) [ none ↦ some invite | some old ↦ some old ])
unfolding get_invite insert_invite or_insert
get_invite-insert invite store = elim (Option-cases (lookup invite.token store)) [
  | inl e ↦ rw e (
      lookup-insert_key invite.token invite.token invite store ∙ rw (str_eq_refl invite.token) refl)
  | inr (old, e) ↦ rw (e, e) refl
]
