-- ===== src/Routes/Access.antt =====
-- runner_routes.go: who may change the control plane, and that no request breaks its queue.
use proof_layer.Base.{
  ◌≡◌, refl, ap, ◌∙◌, ◌≢◌, ◌⊎◌, inl, inr, true, false, not, ◌||◌, String, some, List, [], ◌∷◌,
  arith, ◌==◌, String_eq, eq_iff, nat_eq, Bool-cases, Option-cases, byte_len,
}
use proof_layer.RunQueue.Platform.{Platform}
use proof_layer.RunQueue.Queue.{Queue}
use proof_layer.RunQueue.Methods.{lower}
use proof_layer.RunQueue.QueueInvariant.{QueueInv}
use proof_layer.Routes.Model.{RunnerBinding, HttpRequest, Server, Readings}
use proof_layer.Routes.Paths.{split_slashes, trim_slashes, strip_prefix}
use proof_layer.Routes.Handle.{
  Answer, valid_authorization, handle_parts, handle_bound, handle_runner_route,
}

bool_false : ¬ (false ≡ true)
bool_false e = cc

-- The queue that an answer leaves is well formed.
abbrev IsKept : Answer → Type 0
IsKept answer = QueueInv answer.0.queue

module _ (p : Platform) (b : RunnerBinding) (request : HttpRequest) where
  token_shown :
      (runner_id : String)
      → valid_authorization p b request runner_id ≡ true
      → strip_prefix "Bearer " request.authorization ≡ some b.bearer_token
  unfolding valid_authorization
  token_shown runner_id h = elim (Bool-cases (lower p runner_id == b.runner_id)) [
    | inr e ↦ absurd (bool_false (rw (e, valid_authorization) at h))
    | inl e ↦ (elim (Option-cases (strip_prefix "Bearer " request.authorization)) [
      | inl f ↦ absurd (bool_false (rw (e, f, valid_authorization) at h))
      | inr (token, f) ↦ (elim (Bool-cases (nat_eq (byte_len token) (byte_len b.bearer_token))) [
        | inr g ↦ absurd (bool_false (rw (e, f, g, valid_authorization) at h))
        | inl g ↦
            f ∙ ap some ((eq_iff token b.bearer_token).0 (rw (e, f, g, valid_authorization) at h))
      ])
    ])
  ]

  parts_cases :
      (server : Server) (t : Readings) (parts : List String)
      → ((handle_parts p server b request t parts).0 ≡ server)
        ⊎ (strip_prefix "Bearer " request.authorization ≡ some b.bearer_token)
  unfolding handle_parts
  parts_cases server t [] = inl refl
  parts_cases server t (v1 ∷ []) = inl refl
  parts_cases server t (v1 ∷ (runners ∷ [])) = inl refl
  parts_cases server t (v1 ∷ (runners ∷ (runner_id ∷ []))) = inl refl
  parts_cases server t (v1 ∷ (runners ∷ (runner_id ∷ (action ∷ rest)))) =
      elim (Bool-cases (valid_authorization p b request runner_id)) [
        | inl shown ↦ inr (token_shown runner_id shown)
        | inr e ↦
            let refused : (not (v1 == "v1")
                  || not (runners == "runners")
                  || not (valid_authorization p b request runner_id))
                ≡ true =
              ground (arith, e) in
            inl (rw (refused, handle_parts) refl)
      ]

module _ (p : Platform) (server : Server) (request : HttpRequest) (t : Readings) where
  -- A request to the routes of the runners that changes anything in the server carries the bearer
  -- token of the server's runner.
  pub change-authorized :
      ((handle_runner_route p server request t).0 ≢ server)
      → (b : RunnerBinding) × (server.runner ≡ some b)
        × (strip_prefix "Bearer " request.authorization ≡ some b.bearer_token)
  unfolding handle_runner_route handle_bound
  change-authorized changed = elim (Option-cases server.runner) [
    | inl e ↦ absurd (changed (ap (λ o. (handle_bound p server request t o).0) e))
    | inr (b, e) ↦
        (elim (parts_cases p b request server t (split_slashes (trim_slashes request.path))) [
          | inl same ↦ absurd (changed (ap (λ o. (handle_bound p server request t o).0) e ∙ same))
          | inr shown ↦ (b, e, shown)
        ])
  ]
