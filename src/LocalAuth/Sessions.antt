-- ===== src/LocalAuth/Sessions.antt =====
-- control-plane/internal/localauth/service.go: CreateSession, VerifySession and RevokeSession, under
-- the service's mutex.
use Prim.Native.String.{◌++◌ as append_text}
use proof_layer.Base.{
  ◌+◌, Bool, not, ◌&&◌, ◌||◌, String, Option, none, some, ◌==◌, String_eq, Bytes, Bytes_eq, Time,
  Duration, before, Outcome, ok, err, ltb, if◌then◌else◌, byte_len, utf8,
}
use proof_layer.Base.Assoc.{Assoc, lookup, insert, delete}
use proof_layer.RunQueue.Platform.{Platform}

pub data AuthError : Type 0 where
  session_invalid random_failed : AuthError

pub record User : Type 0 where
  pub id : String
  pub workspace_id : String
  pub email : String
  pub display_name : String
  pub role : String
  pub status : String
  pub created_at : Time
  pub password_hash : String

pub record Principal : Type 0 where
  pub user_id : String
  pub workspace_id : String
  pub email : String
  pub display_name : String
  pub role : String

pub record Session : Type 0 where
  pub id : String
  pub principal : Principal
  pub token_digest : Bytes
  pub created_at : Time
  pub last_seen_at : Time
  pub idle_expires_at : Time
  pub absolute_expiry : Time

-- The fields of `Service` that its sessions use.
pub record Service : Type 0 where
  pub user : User
  pub sessions : Assoc Bytes Session
  pub idle_timeout : Duration
  pub absolute_timeout : Duration

-- `principalFor`
abbrev pub principal_for : User → Principal
principal_for u = record {
  user_id = u.id;
  workspace_id = u.workspace_id;
  email = u.email;
  display_name = u.display_name;
  role = u.role;
}

-- `a == b` on two structs of strings.
abbrev pub principal_eq : Principal → Principal → Bool
principal_eq a b =
    a.user_id == b.user_id
    && a.workspace_id == b.workspace_id
    && a.email == b.email
    && a.display_name == b.display_name
    && a.role == b.role

-- `minimumTime`
abbrev pub minimum_time : Time → Time → Time
minimum_time a b = if before a b then a else b

module _ (p : Platform) where
  -- `sha256.Sum256([]byte(token))`
  abbrev pub digest : String → Bytes
  digest token = p.sha256 (utf8 token)

  abbrev pub new_session : Service → Principal → String → Bytes → Time → Session
  new_session v principal token id_bytes now = record {
    id = append_text "ses_" (p.encode_base64 id_bytes);
    principal = principal;
    token_digest = digest token;
    created_at = now;
    last_seen_at = now;
    idle_expires_at = now + v.idle_timeout;
    absolute_expiry = now + v.absolute_timeout;
  }

  -- `CreateSession`; the random bytes are those of the token and of the session's identifier.
  unfoldable pub create_session :
      Service → Principal → Option Bytes → Option Bytes → Time → Service × Outcome AuthError String
  create_session v principal token_bytes id_bytes now =
      if not (principal_eq principal (principal_for v.user))
      then (v, err session_invalid)
      else (elim token_bytes [
        | none ↦ (v, err random_failed)
        | some bytes ↦ (elim id_bytes [
          | none ↦ (v, err random_failed)
          | some ids ↦
              let token = p.encode_base64 bytes in
              (
                record v {
                  sessions =
                      insert (digest token) (new_session v principal token ids now) v.sessions;
                },
                ok token,
              )
        ])
      ])

  abbrev pub seen_session : Service → Time → Session → Session
  seen_session v now s = record s {
    last_seen_at = now;
    idle_expires_at = minimum_time (now + v.idle_timeout) s.absolute_expiry;
  }

  -- `VerifySession`
  unfoldable pub verify_session : Service → String → Time → Service × Outcome AuthError Principal
  verify_session v token now =
      if ltb (byte_len token) 32 || ltb 128 (byte_len token)
      then (v, err session_invalid)
      else (elim (lookup (digest token) v.sessions) [
        | none ↦ (v, err session_invalid)
        | some s ↦
            if not (before now s.idle_expires_at) || not (before now s.absolute_expiry)
            then (record v { sessions = delete (digest token) v.sessions }, err session_invalid)
            else (
              record v { sessions = insert (digest token) (seen_session v now s) v.sessions },
              ok s.principal,
            )
      ])

  -- `RevokeSession`
  unfoldable pub revoke_session : Service → String → Service
  revoke_session v token = record v { sessions = delete (digest token) v.sessions }
