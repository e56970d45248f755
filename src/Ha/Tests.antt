-- ===== src/Ha/Tests.antt =====
-- The theorems on internal/ha at concrete inputs.
use riquet.Ha.{
  Handler, MutationRequest, Request, forwarded_request, has_backslash, is_mutation, marked,
  no_answer, receive, unavailable, valid_bearer, valid_forward_path,
}
use riquet.Ha.Serving.{Network, attempts, forwarded, mutation_request, serve_public}
use riquet.Map.{get}
use riquet.Prelude.{
  Bool, List, String, [], none, number_eq, refl, some, string_eq, suc, true, ℕ, ◌∷◌, ◌≡◌,
}
use riquet.Prelude.Texts.{after_prefix}
use riquet.Storage.{Lease}

-- A handler that counts its calls.
abbrev counting : Handler ℕ
counting r n = (record { status = 200; headers = []; body = r.body }, suc n)

abbrev first_lease : Lease
first_lease = record { holder = "riquet-0"; epoch = 3 }

abbrev delete_request : Request
delete_request = record {
  method = "DELETE";
  path = "/subjects/user";
  query = "";
  headers = ("X-Request-ID", "op-1") ∷ [];
  body = [];
}

abbrev sent : MutationRequest
sent = record {
  protocol = 1;
  lease = first_lease;
  operation_id = "op-1";
  method = "DELETE";
  path = "/subjects/user";
  query = "";
  headers = [];
  body = [];
}

abbrev anything : Request → Bool
anything r = true

receive_test :
    (receive "secret" (some first_lease) anything counting "POST" "Bearer secret" (some sent) 0).1
    ≡ 1
unfolding receive valid_bearer after_prefix valid_forward_path has_backslash is_mutation
    forwarded_request
receive_test = refl

stale_test :
    receive "secret"
      (some (record first_lease { epoch = 4 }))
      anything
      counting
      "POST"
      "Bearer secret"
      (some sent)
      0
    ≡ (marked "stale-epoch" 409, 0)
unfolding receive valid_bearer after_prefix valid_forward_path has_backslash is_mutation
    forwarded_request
stale_test = refl

-- A network that answers nothing and notes the operation IDs.
abbrev noting : Network (List String)
noting address m log = (no_answer, m.operation_id ∷ log)

noting_test :
    (serve_public
      (λ r log. (unavailable "", log))
      noting
      none
      none
      (λ _. some (first_lease, "http://riquet-0"))
      2
      (some [])
      none
      delete_request
      []).1
    ≡ "op-1" ∷ "op-1" ∷ []
unfolding serve_public attempts mutation_request forwarded is_mutation get
noting_test = refl
