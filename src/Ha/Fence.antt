-- ===== src/Ha/Fence.antt =====
-- Who may mutate: what the receiver checks.
use riquet.Ha.{
  Exchange, Handler, MutationRequest, Request, answered, forwarded_request, is_mutation, marked,
  select_response_headers, valid_forward_path,
}
use riquet.Prelude.{Bool, Option, String, number_eq, some, string_eq, true, ℕ, ◌≡◌}
use riquet.Prelude.Texts.{after_prefix}
use riquet.Storage.{Lease}

-- What the receiver has checked of a mutation that it hands to the public handler.
pub record IsAdmitted (token : String) (own : Option Lease) (method authorization : String)
    (m : MutationRequest) : Type 0 where
  pub posted : method ≡ "POST"
  pub authenticated : after_prefix "Bearer " authorization ≡ some token
  pub leased : own ≡ some m.lease
  pub mutating : is_mutation m.method ≡ true
  pub within : valid_forward_path m.path ≡ true

module _ {S : Type 0} (token : String) (own : Option Lease) (accepts : Request → Bool)
    (handler : Handler S) (method authorization : String) where
  -- The ways in which the receiver ends.
  pub data Received (s : S) : Option MutationRequest → Exchange × S → Type 0 where
    turned_away :
        (input : Option MutationRequest) (reason : String) (status : ℕ)
        → Received s input (marked reason status, s)
    admitted :
        (m : MutationRequest)
        → IsAdmitted token own method authorization m
        → Received s (some m) (
          answered (record (handler (forwarded_request m) s).0 {
            headers = select_response_headers (handler (forwarded_request m) s).0.headers;
          }),
          (handler (forwarded_request m) s).1,
        )
