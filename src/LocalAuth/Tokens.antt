-- ===== src/LocalAuth/Tokens.antt =====
-- service.go: what a token that VerifySession accepts stands for.
use proof_layer.Base.{
  ◌+◌, ◌≤◌, ◌<◌, ◌≡◌, refl, sym, ap, subst, ◌∙◌, ◌≢◌, inl, inr, true, false, not, ◌||◌, String,
  Option, some, arith, Bytes, Bytes_eq, Time, before, Outcome, ok, err, ltb, byte_len, String_eq,
}
use proof_layer.Base.Assoc.{lookup, Values-lookup, lookup-insert_self}
use proof_layer.RunQueue.Platform.{Platform}
use proof_layer.LocalAuth.Sessions.{
  AuthError, session_invalid, Principal, Session, Service, principal_for, minimum_time, digest,
  new_session, create_session, seen_session, verify_session,
}
use proof_layer.LocalAuth.Runs.{IsSound, verify_cases, create_cases, Reached, Reached-Inv_lem}

refused :
    {principal : Principal}
    → ◌≢◌ {A = Outcome AuthError Principal} (err session_invalid) (ok principal)
refused same = cc

accepted : {a b : Principal} → ◌≡◌ {A = Outcome AuthError Principal} (ok a) (ok b) → a ≡ b
accepted same = cc

handed : {a b : String} → ◌≡◌ {A = Outcome AuthError String} (ok a) (ok b) → a ≡ b
handed same = cc

-- The earlier of two times is not after the first.
minimum_le : (a b : Time) → minimum_time a b ≤ a
minimum_le a b = ground arith

module _ (p : Platform) where
  within :
      (now deadline idle whole : Time)
      → before now deadline ≡ true
      → deadline ≡ minimum_time idle whole
      → now < idle
  within now deadline idle whole live same = ground (arith, live, same, minimum_le idle whole)

  -- In every service that a run reaches, a token that `VerifySession` accepts has a session that was
  -- seen last less than the idle timeout ago and made less than the absolute timeout ago, and the
  -- answer is the administrator. In the service that it leaves, the session is seen at this time.
  pub verify-IsLive :
      (v v' : Service) (token : String) (now : Time) (principal : Principal)
      → Reached p v
      → verify_session p v token now ≡ (v', ok principal)
      → (principal ≡ principal_for v.user)
        × (s : Session) × (lookup (digest p token) v.sessions ≡ some s)
        × (now < s.last_seen_at + v.idle_timeout)
        × (now < s.created_at + v.absolute_timeout)
        × (s' : Session) × (lookup (digest p token) v'.sessions ≡ some s')
        × (s'.last_seen_at ≡ now)
  verify-IsLive v v' token now principal reached h = elim (verify_cases p v token now) [
    | inl (inl e) ↦
        absurd (refused (ap (λ (x : Service × Outcome AuthError Principal). x.1) (sym e ∙ h)))
    | inl (inr e) ↦
        absurd (refused (ap (λ (x : Service × Outcome AuthError Principal). x.1) (sym e ∙ h)))
    | inr (s, found, idle, whole, e) ↦
        let i = Reached-Inv_lem p reached in
        let sound =
          Values-lookup (IsSound v.user v.idle_timeout v.absolute_timeout) (digest p token) s
            v.sessions i.sound found in
        let answer =
          accepted (ap (λ (x : Service × Outcome AuthError Principal). x.1) (sym e ∙ h)) in
        (
          sym answer ∙ sound.owner,
          s,
          found,
          within now s.idle_expires_at (s.last_seen_at + v.idle_timeout) s.absolute_expiry idle
              sound.idle,
          ground (arith, whole, sound.absolute),
          seen_session p v now s,
          subst
              (λ (x : Service). lookup (digest p token) x.sessions ≡ some (seen_session p v now s))
              (ap (λ (x : Service × Outcome AuthError Principal). x.0) (sym e ∙ h))
              (lookup-insert_self (digest p token) (seen_session p v now s) v.sessions),
          refl,
        )
  ]

  stored :
      (v v' : Service) (principal : Principal) (token_bytes id_bytes : Option Bytes) (now : Time)
      (token : String)
      → create_session p v principal token_bytes id_bytes now ≡ (v', ok token)
      → (ids : Bytes) × (lookup (digest p token) v'.sessions
          ≡ some (new_session p v principal token ids now))
  stored v v' principal token_bytes id_bytes now token h =
      elim (create_cases p v principal token_bytes id_bytes now) [
        | inl (_, fails) ↦
            absurd (fails token (ap (λ (x : Service × Outcome AuthError String). x.1) h))
        | inr (bytes, ids, owner, e) ↦
            let made_token = p.encode_base64 bytes in
            let w = ap (λ (x : Service × Outcome AuthError String). x.0) (sym e ∙ h) in
            let t = handed (ap (λ (x : Service × Outcome AuthError String). x.1) (sym e ∙ h)) in
            (
              ids,
              subst
                  (λ (u : String).
                    lookup (digest p u) v'.sessions ≡ some (new_session p v principal u ids now))
                  t
                  (subst
                    (λ (x : Service).
                      lookup (digest p made_token) x.sessions
                      ≡ some (new_session p v principal made_token ids now))
                    w
                    (lookup-insert_self (digest p made_token)
                      (new_session p v principal made_token ids now) v.sessions)),
            )
      ]

  -- A token that `CreateSession` hands out is accepted until it has been idle for the idle timeout,
  -- which is at most the absolute one, if its length is between 32 and 128 bytes.
  pub verify-create_session :
      (v v' : Service) (principal : Principal) (token_bytes id_bytes : Option Bytes)
      (now later : Time) (token : String)
      → v.idle_timeout ≤ v.absolute_timeout
      → create_session p v principal token_bytes id_bytes now ≡ (v', ok token)
      → 32 ≤ byte_len token
      → byte_len token ≤ 128
      → later < now + v.idle_timeout
      → (verify_session p v' token later).1 ≡ ok principal
  unfolding verify_session
  verify-create_session v v' principal token_bytes id_bytes now later token timeouts h long short
        early =
      let (ids, found) = stored v v' principal token_bytes id_bytes now token h in
      let fits : (ltb (byte_len token) 32 || ltb 128 (byte_len token)) ≡ false =
        ground (arith, long, short) in
      let live : (not (before later (now + v.idle_timeout))
            || not (before later (now + v.absolute_timeout)))
          ≡ false =
        ground (arith, early, timeouts) in
      rw (fits, found, live, verify_session) refl
