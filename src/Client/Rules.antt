-- ===== src/Client/Rules.antt =====
-- client.go and lifecycle.go: the client refuses the updates that the queue refuses whatever the
-- record, and no other.
use proof_layer.Base.{
  subst, Option, Time, err, panic, Outcome, Outcome-cases, nat_eq, nat_eq_iff, ℕ, ◌+◌, ◌≡◌, ◌↔◌,
  refl, sym, ap, ◌∙◌, inl, inr, Bool, true, false, not, ◌&&◌, ◌||◌, String, none, some, List, [],
  ◌∷◌, arith, ◌==◌, String_eq, ok, guard, ◌>>◌, any, map, Bool-cases, Option-cases,
}
use proof_layer.Base.Int.{pos, ltb_ℤ}
use proof_layer.Base.Assoc.{Assoc, lookup}
use proof_layer.RunQueue.Model.{invalid_transition, StageStatus, StageUpdate, StageStatus_eq}
use proof_layer.RunQueue.Lifecycle.{
  DetailPolicy, stage_order, detail_policies, valid_detail, valid_stage_status, index_from,
  stage_index,
}
use proof_layer.RunQueue.Transitions.{valid_update}
use proof_layer.RunQueue.Platform.{Platform}
use proof_layer.RunQueue.Model.{Job}
use proof_layer.Verifier.Model.{Verifier}
use proof_layer.Verifier.Check.{verify_and_consume}
use proof_layer.Client.Model.{ClientError, remote_error, job_error, Client, Transport}
use proof_layer.Client.Calls.{
  lease_request, after_lease, client_control, client_policies, client_valid_detail, stage_statuses,
  accepts_update,
}

-- The name of an indexed stage is in the list.
index-any :
    (i k : ℕ) (names : List String) (stage : String)
    → index_from i names stage ≡ some k
    → any (λ name. name == stage) names ≡ true
unfolding index_from
index-any i k [] stage h = cc
index-any i k (name ∷ names) stage h = elim (Bool-cases (name == stage)) [
  | inl hit ↦ rw hit refl
  | inr miss ↦ rw miss (index-any (i + 1) k names stage (rw miss at h))
]

any-index :
    (i : ℕ) (names : List String) (stage : String)
    → any (λ name. name == stage) names ≡ true
    → (k : ℕ) × (index_from i names stage ≡ some k)
unfolding index_from
any-index i [] stage h = absurd (ground (arith, h))
any-index i (name ∷ names) stage h = elim (Bool-cases (name == stage)) [
  | inl hit ↦ (i, rw hit refl)
  | inr miss ↦ let (k, e) = any-index (i + 1) names stage (rw miss at h) in (k, rw miss e)
]

abbrev plain : String × DetailPolicy → String × (String × StageStatus)
plain e = (e.0, (e.1.stage, e.1.status))

lookup-plain :
    (k : String) (m : Assoc String DetailPolicy)
    → lookup k (map plain m) ≡ elim (lookup k m) [ none ↦ none | some d ↦ some (d.stage, d.status) ]
unfolding lookup
lookup-plain k [] = refl
lookup-plain k ((j, d) ∷ m) = elim (Bool-cases (j == k)) [
  | inl hit ↦ rw hit refl
  | inr miss ↦ rw miss (lookup-plain k m)
]

same_policies : client_policies ≡ map plain detail_policies
unfolding detail_policies
same_policies = refl

-- The two tables of details are one.
same_detail : (u : StageUpdate) → client_valid_detail u ≡ valid_detail u
unfolding client_valid_detail valid_detail
same_detail u =
    let found =
      ap (lookup u.detail_code) same_policies ∙ lookup-plain u.detail_code detail_policies in
    elim (Option-cases (lookup u.detail_code detail_policies)) [
      | inl miss ↦
          let absent : lookup u.detail_code client_policies ≡ none = rw miss at found in
          rw (miss, absent, client_valid_detail, valid_detail) refl
      | inr (d, hit) ↦
          let present : lookup u.detail_code client_policies ≡ some (d.stage, d.status) =
            rw hit at found in
          rw (hit, present, client_valid_detail, valid_detail) refl
    ]

same_status :
    (status : StageStatus) → any (λ s. s == status) stage_statuses ≡ valid_stage_status status
same_status StageStatus.pending = refl
same_status StageStatus.running = refl
same_status StageStatus.passed = refl
same_status StageStatus.failed = refl
same_status StageStatus.not_tested = refl
same_status (StageStatus.other s) = refl

guards_passed :
    (a b low high d : Bool)
    → not (not a || not b || low || high || not d) ≡ true
    → (a ≡ true) × (b ≡ true) × (low ≡ false) × (high ≡ false) × (d ≡ true)
guards_passed a b low high d h =
    (ground arith, ground arith, ground arith, ground arith, ground arith)

update_passed :
    (u : StageUpdate)
    → valid_update u ≡ ok tt
    → (valid_stage_status u.status ≡ true)
      × (ltb_ℤ u.latency_ms (pos 0) ≡ false)
      × (ltb_ℤ (pos 300_000) u.latency_ms ≡ false)
      × (valid_detail u ≡ true)
unfolding valid_update
update_passed u v =
    go (valid_stage_status u.status) (ltb_ℤ u.latency_ms (pos 0)) (ltb_ℤ (pos 300_000) u.latency_ms)
      (valid_detail u) v
  where
    go :
        (b low high d : Bool)
        → (guard (b && not low && not high) invalid_transition >> guard d invalid_transition)
          ≡ ok tt
        → (b ≡ true) × (low ≡ false) × (high ≡ false) × (d ≡ true)
    go b low high d h = (ground arith, ground arith, ground arith, ground arith)

-- The client's guard on an update is that of the queue: a stage of the list, and what the queue
-- checks of an update before it looks at the record.
pub accepts_update-exact :
    (u : StageUpdate)
    → (accepts_update u ≡ true)
      ↔ ((valid_update u ≡ ok tt) × ((k : ℕ) × (stage_index u.stage ≡ some k)))
unfolding accepts_update valid_update stage_index
accepts_update-exact u = (
  λ h.
      let (a, b, low, high, d) = guards_passed _ _ _ _ _ h in
      let known = sym (same_status u.status) ∙ b in
      let fits = sym (same_detail u) ∙ d in
      (rw (known, low, high, fits, valid_update) refl, any-index 0 stage_order u.stage a),
  λ (v, (k, found)).
      let a = index-any 0 k stage_order u.stage found in
      let (known, low, high, fits) = update_passed u v in
      rw (a, same_status u.status ∙ known, low, high, same_detail u ∙ fits, accepts_update) refl,
)

err-some :
    (e : ClientError) (job : Job)
    → ¬ (◌≡◌ {A = Outcome ClientError (Option Job)} (err e) (ok (some job)))
err-some e job h = cc

panic-some : (job : Job) → ¬ (◌≡◌ {A = Outcome ClientError (Option Job)} panic (ok (some job)))
panic-some job h = cc

none-some : (job : Job) → ¬ (◌≡◌ {A = Outcome ClientError (Option Job)} (ok none) (ok (some job)))
none-some job h = cc

some-injective :
    (i j : Job) → ◌≡◌ {A = Outcome ClientError (Option Job)} (ok (some i)) (ok (some j)) → i ≡ j
some-injective i j h = cc

-- `Lease` of the client hands out a job only if the answer to its request is a job with status 200
-- that its verifier accepts at that time; the verifier that it leaves has consumed the job.
pub lease-verified :
    {S : Type 0} (p : Platform) (c : Client) (t : Transport S) (now : S → Time) (s : S)
    (v : Verifier) (job : Job)
    → ((client_control p c t now).lease (s, v)).1 ≡ ok (some job)
    → ((t (lease_request c) s).1 ≡ ok (200, job))
      × (verify_and_consume p v job (now (t (lease_request c) s).0)
          ≡ (((client_control p c t now).lease (s, v)).0.1, ok tt))
unfolding client_control after_lease
lease-verified {S} p c t now s v job h = go (t (lease_request c) s) h
  where
    go :
        (answer : S × Outcome ClientError (ℕ × Job))
        → (after_lease p now v answer).1 ≡ ok (some job)
        → (answer.1 ≡ ok (200, job))
          × (verify_and_consume p v job (now answer.0) ≡ ((after_lease p now v answer).0.1, ok tt))
    go (s', err e) h = absurd (err-some e job h)
    go (s', panic) h = absurd (panic-some job h)
    go (s', ok (status, j)) h =
        let x = verify_and_consume p v j (now s') in
        elim (Bool-cases (nat_eq status 204)) [
          | inl e ↦ absurd (none-some job (rw (e, after_lease) at h))
          | inr e ↦ (elim (Bool-cases (nat_eq status 200)) [
            | inr f ↦ absurd (
                err-some (remote_error status "UNEXPECTED_RESPONSE") job
                  (rw (e, f, after_lease) at h))
            | inl f ↦ (elim (Outcome-cases x.1) [
              | inr (inl (why, g)) ↦
                  absurd (err-some (job_error why) job (rw (e, f, g, after_lease) at h))
              | inr (inr g) ↦ absurd (panic-some job (rw (e, f, g, after_lease) at h))
              | inl (u, g) ↦
                  let one : j ≡ job = some-injective j job (rw (e, f, g, after_lease) at h) in
                  let left : (after_lease p now v (s', ok (status, j))).0.1 ≡ x.0 =
                    rw (e, f, g, after_lease) refl in
                  let status_ok : status ≡ 200 = (nat_eq_iff status 200).0 f in
                  (
                    ap (λ n. ok (n, j)) status_ok ∙ ap (λ y. ok (200, y)) one,
                    subst
                        (λ y.
                          verify_and_consume p v y (now s')
                          ≡ ((after_lease p now v (s', ok (status, j))).0.1, ok tt))
                        one (ap (λ o. (x.0, o)) g ∙ ap (λ z. (z, ok tt)) (sym left)),
                  )
            ])
          ])
        ]
