-- ===== src/LocalAuth/Examples.antt =====
-- Sessions on concrete input: tests, and the theorems at inputs that meet their hypotheses.
use proof_layer.Base.{
  ◌+◌, ◌*◌, ◌≡◌, ◌<◌, refl, String, some, [], Bytes_eq, minute, hour, ok, err, arith, hex, utf8,
}
use proof_layer.Base.Assoc.{lookup, insert, delete}
use proof_layer.RunQueue.Stubs.{stub, sixteen, start}
use proof_layer.LocalAuth.Sessions.{
  session_invalid, User, Session, Service, principal_for, digest, create_session, verify_session,
  revoke_session,
}
use proof_layer.LocalAuth.Runs.{Reached, made, after_call, creates}
use proof_layer.LocalAuth.Tokens.{verify-IsLive, verify-create_session}

abbrev admin : User
admin = record {
  id = "u";
  workspace_id = "w";
  email = "a@b.c";
  display_name = "Admin";
  role = "admin";
  status = "active";
  created_at = start;
  password_hash = "";
}

abbrev service : Service
service = record {
  user = admin;
  sessions = [];
  idle_timeout = 30 * minute;
  absolute_timeout = 8 * hour;
}

abbrev token : String
token = "000102030405060708090a0b0c0d0e0f"

entered : Service
entered =
    (create_session stub service (principal_for admin) (some (sixteen 0)) (some (sixteen 1))
      start).0

seen : Service
seen = (verify_session stub entered token (start + minute)).0

entered-Reached : Reached stub entered
unfolding entered
entered-Reached =
    after_call (made service refl (omega arith))
      (creates service (principal_for admin) (some (sixteen 0)) (some (sixteen 1)) start)

verify-create_session_example :
    (verify_session stub entered token (start + minute)).1 ≡ ok (principal_for admin)
unfolding entered create_session stub hex
verify-create_session_example =
    verify-create_session stub service entered (principal_for admin) (some (sixteen 0))
      (some (sixteen 1)) start (start + minute) token (omega arith) refl (ground arith)
      (ground arith) (omega arith)

verify-IsLive_example :
    (principal_for admin ≡ principal_for entered.user)
    × (s : Session) × (lookup (digest stub token) entered.sessions ≡ some s)
    × (start + minute < s.last_seen_at + entered.idle_timeout)
    × (start + minute < s.created_at + entered.absolute_timeout)
    × (s' : Session) × (lookup (digest stub token) seen.sessions ≡ some s')
    × (s'.last_seen_at ≡ start + minute)
unfolding entered seen create_session verify_session stub hex utf8 lookup insert
verify-IsLive_example =
    verify-IsLive stub entered seen token (start + minute) (principal_for admin) entered-Reached
      refl

test_revoked :
    (verify_session stub (revoke_session stub entered token) token (start + minute)).1
    ≡ err session_invalid
unfolding entered create_session verify_session revoke_session stub hex utf8 lookup insert delete
test_revoked = refl
