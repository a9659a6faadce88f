-- ===== src/LocalAuth/Runs.antt =====
-- service.go: the calls on the sessions, and what holds of every session in every run of them.
use proof_layer.Base.{
  ◌+◌, ◌≤◌, ◌≡◌, refl, sym, subst, ◌≢◌, ◌⊎◌, inl, inr, true, not, ◌||◌, String, Option, some, [],
  arith, Bytes, Bytes_eq, Time, Duration, before, Outcome, ok, err, ltb, byte_len, Bool-cases,
  Option-cases, String_eq,
}
use proof_layer.Base.Assoc.{lookup, insert, Values, Values-insert, Values-delete, Values-lookup}
use proof_layer.RunQueue.Platform.{Platform}
use proof_layer.LocalAuth.Sessions.{
  AuthError, session_invalid, User, Principal, Session, Service, principal_for, principal_eq,
  minimum_time, digest, new_session, create_session, seen_session, verify_session, revoke_session,
}

-- A session is the administrator's. It ends when the absolute timeout has passed since it was made,
-- or the idle timeout since it was seen last.
pub record IsSound (u : User) (idle_timeout timeout : Duration) (s : Session) : Type 0 where
  pub owner : s.principal ≡ principal_for u
  pub absolute : s.absolute_expiry ≡ s.created_at + timeout
  pub idle : s.idle_expires_at ≡ minimum_time (s.last_seen_at + idle_timeout) s.absolute_expiry

pub record Inv (v : Service) : Type 0 where
  pub timeouts : v.idle_timeout ≤ v.absolute_timeout
  pub sound : Values (IsSound v.user v.idle_timeout v.absolute_timeout) v.sessions

principal_eq_lem : (a b : Principal) → principal_eq a b ≡ true → a ≡ b
principal_eq_lem a b h = ground (
  arith,
  String_eq.reflects a.user_id b.user_id,
  String_eq.reflects a.workspace_id b.workspace_id,
  String_eq.reflects a.email b.email,
  String_eq.reflects a.display_name b.display_name,
  String_eq.reflects a.role b.role,
)

module _ (p : Platform) where
  pub verify_cases :
      (v : Service) (token : String) (now : Time)
      → ((verify_session p v token now ≡ (v, err session_invalid))
          ⊎ (verify_session p v token now ≡ (revoke_session p v token, err session_invalid)))
        ⊎ ((s : Session) × (lookup (digest p token) v.sessions ≡ some s)
            × (before now s.idle_expires_at ≡ true)
            × (before now s.absolute_expiry ≡ true)
            × (verify_session p v token now ≡ (
              record v { sessions = insert (digest p token) (seen_session p v now s) v.sessions },
              ok s.principal,
            )))
  unfolding verify_session revoke_session
  verify_cases v token now =
      elim (Bool-cases (ltb (byte_len token) 32 || ltb 128 (byte_len token))) [
        | inl long ↦ inl (inl (rw (long, verify_session) refl))
        | inr fits ↦ (elim (Option-cases (lookup (digest p token) v.sessions)) [
          | inl gone ↦ inl (inl (rw (fits, gone, verify_session) refl))
          | inr (s, found) ↦
              (elim (Bool-cases
                (not (before now s.idle_expires_at) || not (before now s.absolute_expiry))) [
                  | inl late ↦ inl (inr (rw (fits, found, late, verify_session) refl))
                  | inr live ↦ inr (
                    s,
                    found,
                    ground (arith, live),
                    ground (arith, live),
                    rw (fits, found, live, verify_session) refl,
                  )
                ])
        ])
      ]

  pub create_cases :
      (v : Service) (principal : Principal) (token_bytes id_bytes : Option Bytes) (now : Time)
      → (((create_session p v principal token_bytes id_bytes now).0 ≡ v)
          × ((token : String)
              → (create_session p v principal token_bytes id_bytes now).1 ≢ ok token))
        ⊎ ((bytes ids : Bytes) × (principal ≡ principal_for v.user)
            × (create_session p v principal token_bytes id_bytes now ≡ (
              record v {
                sessions =
                    insert
                      (digest p (p.encode_base64 bytes))
                      (new_session p v principal (p.encode_base64 bytes) ids now)
                      v.sessions;
              },
              ok (p.encode_base64 bytes),
            )))
  unfolding create_session
  create_cases v principal token_bytes id_bytes now =
      elim (Bool-cases (principal_eq principal (principal_for v.user))) [
        | inr other ↦
            inl (rw (other, create_session) refl, (λ t. rw (other, create_session) (λ same. cc)))
        | inl same ↦ (elim (Option-cases token_bytes) [
          | inl e ↦
              inl (
                rw (same, e, create_session) refl,
                (λ t. rw (same, e, create_session) (λ wrong. cc)),
              )
          | inr (bytes, e) ↦ (elim (Option-cases id_bytes) [
            | inl f ↦ inl (
              rw (same, e, f, create_session) refl,
              (λ t. rw (same, e, f, create_session) (λ wrong. cc)),
            )
            | inr (ids, f) ↦ inr (
              bytes,
              ids,
              principal_eq_lem principal (principal_for v.user) same,
              rw (same, e, f, create_session) refl,
            )
          ])
        ])
      ]

  -- One call of a method, with the service that it leaves.
  pub data Call : Service → Service → Type 0 where
    creates :
        (v : Service) (principal : Principal) (token_bytes id_bytes : Option Bytes) (now : Time)
        → Call v (create_session p v principal token_bytes id_bytes now).0
    verifies : (v : Service) (token : String) (now : Time) → Call v (verify_session p v token now).0
    revokes : (v : Service) (token : String) → Call v (revoke_session p v token)

  -- A run from a service without sessions, whose timeouts are as `New` wants them.
  pub data Reached : Service → Type 0 where
    made : (v : Service) → v.sessions ≡ [] → v.idle_timeout ≤ v.absolute_timeout → Reached v
    after_call : {v v' : Service} → Reached v → Call v v' → Reached v'

  revoke-Inv : (v : Service) (token : String) → Inv v → Inv (revoke_session p v token)
  unfolding revoke_session
  revoke-Inv v token i = record {
    timeouts = i.timeouts;
    sound =
        Values-delete (IsSound v.user v.idle_timeout v.absolute_timeout) (digest p token) v.sessions
          i.sound;
  }

  new_idle :
      (now : Time) (idle whole : Duration)
      → idle ≤ whole
      → now + idle ≡ minimum_time (now + idle) (now + whole)
  new_idle now idle whole h = ground (arith, h)

  verify-Inv :
      (v : Service) (token : String) (now : Time) → Inv v → Inv (verify_session p v token now).0
  verify-Inv v token now i = elim (verify_cases v token now) [
    | inl (inl e) ↦ subst (λ (x : Service × Outcome AuthError Principal). Inv x.0) (sym e) i
    | inl (inr e) ↦
        subst (λ (x : Service × Outcome AuthError Principal). Inv x.0) (sym e)
          (revoke-Inv v token i)
    | inr (s, found, _, _, e) ↦
        let sound =
          Values-lookup (IsSound v.user v.idle_timeout v.absolute_timeout) (digest p token) s
            v.sessions i.sound found in
        subst (λ (x : Service × Outcome AuthError Principal). Inv x.0) (sym e)
          (record {
            timeouts = i.timeouts;
            sound =
                Values-insert (IsSound v.user v.idle_timeout v.absolute_timeout) (digest p token)
                  (seen_session p v now s) v.sessions
                  (record { owner = sound.owner; absolute = sound.absolute; idle = refl }) i.sound;
          })
  ]

  create-Inv :
      (v : Service) (principal : Principal) (token_bytes id_bytes : Option Bytes) (now : Time)
      → Inv v
      → Inv (create_session p v principal token_bytes id_bytes now).0
  create-Inv v principal token_bytes id_bytes now i =
      elim (create_cases v principal token_bytes id_bytes now) [
        | inl (kept, _) ↦ subst Inv (sym kept) i
        | inr (bytes, ids, owner, e) ↦
            subst (λ (x : Service × Outcome AuthError String). Inv x.0) (sym e)
              (record {
                timeouts = i.timeouts;
                sound =
                    Values-insert (IsSound v.user v.idle_timeout v.absolute_timeout)
                      (digest p (p.encode_base64 bytes))
                      (new_session p v principal (p.encode_base64 bytes) ids now) v.sessions
                      (record {
                        owner = owner;
                        absolute = refl;
                        idle = new_idle now v.idle_timeout v.absolute_timeout i.timeouts;
                      })
                      i.sound;
              })
      ]

  pub Reached-Inv_lem : {v : Service} → Reached v → Inv v
  Reached-Inv_lem (made v none_yet timeouts) = record {
    timeouts = timeouts;
    sound = subst (Values (IsSound v.user v.idle_timeout v.absolute_timeout)) (sym none_yet) tt;
  }
  Reached-Inv_lem (after_call r (creates v principal token_bytes id_bytes now)) =
      create-Inv v principal token_bytes id_bytes now (Reached-Inv_lem r)
  Reached-Inv_lem (after_call r (verifies v token now)) = verify-Inv v token now (Reached-Inv_lem r)
  Reached-Inv_lem (after_call r (revokes v token)) = revoke-Inv v token (Reached-Inv_lem r)
