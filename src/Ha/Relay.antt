-- ===== src/Ha/Relay.antt =====
-- What a forwarded mutation comes to at the primary.
use Prim.Native.String.{◌++◌ as text_append}
use riquet.Ha.{Handler, Request, Response, forwarded_request, receive, select_response_headers}
use riquet.Ha.Serving.{Network, mutation_request}
use riquet.Prelude.{Bool, List, Option, String, number_eq, some, string_eq, ℕ}
use riquet.Storage.{Lease}

-- A peer that holds a lease, reached as `forward` reaches it.
abbrev pub peer : {S : Type 0} → String → Option Lease → (Request → Bool) → Handler S → Network S
peer token own accepts handler address m s =
    receive token own accepts handler "POST" (text_append "Bearer " token) (some m) s

module _ {S : Type 0} (token : String) (lease : Lease) (accepts : Request → Bool)
    (handler : Handler S) (operation_id : String) (r : Request) (body : List ℕ) (s : S) where
  -- The request that the primary's public handler sees, and what it answers.
  abbrev pub relayed : Request
  relayed = forwarded_request (mutation_request lease operation_id r body)

  abbrev pub relayed_answer : Response
  relayed_answer = record (handler relayed s).0 {
    headers = select_response_headers (handler relayed s).0.headers;
  }
