-- ===== src/Ha/Attempts.antt =====
-- What the attempts of one request send.
use riquet.Ha.{Handler, Request, header, is_mutation, max_mutation_body}
use riquet.Ha.Serving.{
  Network, attempts, forwarded, is_primary, mutation_request, operation_id_of, serve_public,
}
use riquet.Prelude.{
  Bool-cases, List, Option, Option-cases, String, false, inl, inr, length, ltb, number_eq, some,
  string_eq, suc, true, zero, ℕ, ◌==◌, ◌≡◌,
}
use riquet.Storage.{Lease}
use riquet.Storage.Kafka.{primary}

-- What every exchange of one mutation keeps.
module _ {S : Type 0} (network : Network S) (Q : S → Type 0) (operation_id : String) (r : Request)
    (body : List ℕ)
    (exchanged : (address : String) (lease : Lease) (s : S)
      → Q s
      → Q (network address (mutation_request lease operation_id r body) s).1) where
  attempts-keeps :
      (primary : ℕ → Option (Lease × String)) (n : ℕ) (s : S)
      → Q s
      → Q (attempts network primary operation_id r body n s).1
  unfolding attempts
  attempts-keeps primary zero s q = q
  attempts-keeps primary (suc n) s q = elim (Option-cases (primary (suc n))) [
    | inl missing ↦ rw (missing, attempts) (attempts-keeps primary n s q)
    | inr ((lease, address), found) ↦ elim (Bool-cases (address == "")) [
      | inl blank ↦ rw (found, attempts, blank) (attempts-keeps primary n s q)
      | inr addressed ↦
          let o = network address (mutation_request lease operation_id r body) s in
          elim (Option-cases (forwarded o.0)) [
            | inl failing ↦
                rw (found, attempts, addressed, failing)
                  (attempts-keeps primary n o.1 (exchanged address lease s q))
            | inr (response, good) ↦
                rw (found, attempts, addressed, good) (exchanged address lease s q)
          ]
    ]
  ]

  -- Whatever every exchange of a mutation keeps, under any lease and at any address, servePublic
  -- keeps for a request of that mutation away from the primary: all that is sent for the request,
  -- over all attempts, is the one mutation with the one operation ID.
  pub serve_public-keeps :
      (handler : Handler S) (own : Option Lease) (announced : Option (Lease × String))
      (primary : ℕ → Option (Lease × String)) (retries : ℕ) (random : Option String) (s : S)
      → is_mutation r.method ≡ true
      → is_primary own announced ≡ false
      → operation_id_of r.headers random ≡ some operation_id
      → Q s
      → Q (serve_public handler network own announced primary retries (some body) random r s).1
  unfolding serve_public
  serve_public-keeps handler own announced primary retries random s mutates follows named q =
      elim (Bool-cases (header r.headers "X-Riquet-Internal-Hop" == "")) [
        | inr looped ↦ rw (mutates, serve_public, looped) q
        | inl fresh ↦ elim (Bool-cases (ltb max_mutation_body (length body))) [
          | inl long ↦ rw (mutates, serve_public, fresh, follows, long) q
          | inr fits ↦
              rw (mutates, serve_public, fresh, follows, fits, named)
                (attempts-keeps primary retries s q)
        ]
      ]
