-- ===== src/Ha/Serving.antt =====
-- servePublic and forward of internal/ha/forwarder.go.
-- forward: the request that is sent, and what is made of the exchange. An error and a retry come to
-- the same in the caller.
use riquet.Ha.{
  Exchange, Handler, MutationRequest, Request, Response, answered, header, is_mutation, marked,
  max_mutation_body, no_answer, protocol_version, select_headers, unavailable, unreadable,
}
use riquet.Map.{Map}
use riquet.Prelude.{
  Bool, List, Option, String, false, if◌then◌else◌, length, ltb, none, not, number_eq, some,
  string_eq, suc, true, zero, ℕ, ◌==◌, ◌||◌,
}
use riquet.Storage.{Lease, same_lease}
use riquet.Storage.Kafka.{primary}

unfoldable pub mutation_request : Lease → String → Request → List ℕ → MutationRequest
mutation_request lease operation_id original body = record {
  protocol = protocol_version;
  lease = lease;
  operation_id = operation_id;
  method = original.method;
  path = original.path;
  query = original.query;
  headers = select_headers original.headers;
  body = body;
}

unfoldable pub forwarded : Exchange → Option Response
forwarded no_answer = none
forwarded (marked reason status) = none
forwarded unreadable = none
forwarded (answered r) = if ltb r.status 100 || ltb 599 r.status then none else some r

-- The peers, over what they keep: an exchange with the one at an address.
abbrev pub Network : Type 0 → Type 0
Network S = String → MutationRequest → S → Exchange × S

-- The loop of servePublic. `primary` is the authority's announcement at an attempt, counted from
-- the last one.
unfoldable pub attempts :
    {S : Type 0}
    → Network S
    → (ℕ → Option (Lease × String))
    → String
    → Request
    → List ℕ
    → ℕ
    → S
    → Response × S
unfolding forwarded mutation_request
attempts network primary operation_id original body zero s =
    (unavailable "Primary registry is unavailable", s)
attempts network primary operation_id original body (suc n) s = elim (primary (suc n)) [
  | none ↦ attempts network primary operation_id original body n s
  | some (lease, address) ↦ elim (address == "") [
    | true ↦ attempts network primary operation_id original body n s
    | false ↦
        let o = network address (mutation_request lease operation_id original body) s in
        elim (forwarded o.0) [
          | some response ↦ (response, o.1)
          | none ↦ attempts network primary operation_id original body n o.1
        ]
  ]
]

-- X-Request-ID, or a random one.
abbrev pub operation_id_of : Map String String → Option String → Option String
operation_id_of headers random =
    if header headers "X-Request-ID" == "" then random else some (header headers "X-Request-ID")

abbrev pub is_primary : Option Lease → Option (Lease × String) → Bool
is_primary none announced = false
is_primary (some own) none = false
is_primary (some own) (some (lease, address)) = same_lease lease own

-- servePublic, for what is read of the body, a random operation ID or none, and the leases when the
-- request comes in.
unfoldable pub serve_public :
    {S : Type 0}
    → Handler S
    → Network S
    → Option Lease
    → Option (Lease × String)
    → (ℕ → Option (Lease × String))
    → ℕ
    → Option (List ℕ)
    → Option String
    → Request
    → S
    → Response × S
unfolding attempts is_mutation
serve_public public_handler network own announced primary retries read random r s =
    if not (is_mutation r.method)
    then public_handler r s
    else if not (header r.headers "X-Riquet-Internal-Hop" == "")
    then (unavailable "Internal mutation forwarding loop rejected", s)
    else if is_primary own announced
    then public_handler r s
    else elim read [
      | none ↦ (unavailable "Mutation could not be forwarded", s)
      | some body ↦
          if ltb max_mutation_body (length body)
          then (unavailable "Mutation could not be forwarded", s)
          else elim (operation_id_of r.headers random) [
            | none ↦ (unavailable "Mutation operation identifier is unavailable", s)
            | some operation_id ↦ attempts network primary operation_id r body retries s
          ]
    ]
