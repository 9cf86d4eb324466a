-- ===== src/Tests/Invite.antt =====
-- Durations of invitations at concrete inputs.
use solid_pod_rs.Text.Decimal.{parse_u64}
use solid_pod_rs.Prelude.{◌≡◌, refl, none, some}
use solid_pod_rs.Text.{text, trim, break_at, str_eq}
use solid_pod_rs.Idp.Invite.{parse_duration}

two_hours : parse_duration (text " 2h ") ≡ some 7200
unfolding parse_duration trim text parse_u64 break_at str_eq
two_hours = refl

plain_seconds : parse_duration (text "45") ≡ some 45
unfolding parse_duration trim text parse_u64
plain_seconds = refl

mixed_units : parse_duration (text "1d12h") ≡ none
unfolding parse_duration trim text parse_u64 break_at str_eq
mixed_units = refl
