-- ===== src/Ha.antt =====
-- internal/ha/forwarder.go: mutations that reach a follower are forwarded to the primary. The
-- network, the peers, the wrapped public handler and the random source are arguments.
pub mod Serving
pub mod Fence
pub mod Relay
pub mod Attempts
pub mod Tests
use Prim.Native.Char.{code}
use Prim.Native.String.{◌++◌ as append}
use riquet.Domain.Guid.{bytes}
use riquet.Domain.Queries.{or_default}
use riquet.Map.{Map, get, put}
use riquet.Prelude.{
  Bool, List, Option, String, [], false, if◌then◌else◌, none, not, number_eq, some, string_eq, ℕ,
  ◌&&◌, ◌==◌, ◌||◌, ◌∷◌,
}
use riquet.Prelude.Texts.{after_prefix, has_prefix}
use riquet.Storage.{Lease, same_lease}
use riquet.Storage.Kafka.Election.{then}

-- An HTTP request and a response, with one value for each header.
pub record Request : Type 0 where
  pub method : String
  pub path : String
  pub query : String
  pub headers : Map String String
  pub body : List ℕ

pub record Response : Type 0 where
  pub status : ℕ
  pub headers : Map String String
  pub body : List ℕ

-- mutationRequest
pub record MutationRequest : Type 0 where
  pub protocol : ℕ
  pub lease : Lease
  pub operation_id : String
  pub method : String
  pub path : String
  pub query : String
  pub headers : Map String String
  pub body : List ℕ

abbrev pub protocol_version : ℕ
protocol_version = 1

abbrev pub max_mutation_body : ℕ
max_mutation_body = 2097152

-- The answers of this package itself: writeUnavailable, and the receiver's errors.
abbrev pub unavailable : String → Response
unavailable reason = record {
  status = 500;
  headers = ("Content-Type", "application/vnd.schemaregistry.v1+json") ∷ [];
  body = bytes (append "{\"error_code\":50001,\"message\":\"" (append reason "\"}\n"));
}

-- What comes back from an exchange: nothing, an error that the receiver marked with the header
-- X-Riquet-Forward-Error, or a body that is read as a mutationResponse, or not.
pub data Exchange : Type 0 where
  no_answer : Exchange
  marked : String → ℕ → Exchange
  unreadable : Exchange
  answered : Response → Exchange

-- headers.Get: the value, or the empty string.
abbrev pub header : Map String String → String → String
header headers name = or_default "" (get headers name)

-- strings.Contains(path, "\\")
unfoldable pub has_backslash : String → Bool
has_backslash String.[] = false
has_backslash (String.◌∷◌ c s) = code c == 92 || has_backslash s

-- validBearer
unfoldable pub valid_bearer : String → String → Bool
unfolding after_prefix
valid_bearer authorization token = elim (after_prefix "Bearer " authorization) [
  | none ↦ false
  | some provided ↦ provided == token
]

-- isMutation, validForwardPath
unfoldable pub is_mutation : String → Bool
is_mutation method = method == "POST" || method == "PUT" || method == "DELETE"

unfoldable pub valid_forward_path : String → Bool
unfolding after_prefix has_backslash
valid_forward_path path =
    has_prefix path "/" && not (has_prefix path "/internal/") && not (has_backslash path)

-- selectHeaders and selectResponseHeaders
unfoldable pub select : List String → Map String String → Map String String
select [] headers = []
select (name ∷ rest) headers =
    let others = select rest headers in
    if header headers name == "" then others else (name, header headers name) ∷ others

abbrev pub select_headers : Map String String → Map String String
select_headers headers = select ("Accept" ∷ "Content-Type" ∷ []) headers

abbrev pub select_response_headers : Map String String → Map String String
select_response_headers headers = select ("Content-Type" ∷ "X-Request-ID" ∷ []) headers

-- for name, value := range input.Headers { forwarded.Header.Set(name, value) }
abbrev pub set_all : Map String String → Map String String → Map String String
set_all [] headers = headers
set_all ((name, value) ∷ rest) headers = set_all rest (put headers name value)

-- The request that the receiver makes for the public handler.
unfoldable pub forwarded_request : MutationRequest → Request
forwarded_request m =
    let headers = set_all m.headers [] in
    let named =
      if m.operation_id == "" then headers else put headers "X-Request-ID" m.operation_id in
    record {
      method = m.method;
      path = m.path;
      query = m.query;
      headers = put named "X-Riquet-Internal-Hop" "1";
      body = m.body;
    }

-- The public handler, over what the process keeps.
abbrev pub Handler : Type 0 → Type 0
Handler S = Request → S → Response × S

abbrev pub holds_lease : Option Lease → Lease → Bool
holds_lease none lease = false
holds_lease (some own) lease = same_lease own lease

-- receive: the request's method and Authorization header, and what its body is decoded to. `accepts`
-- says whether http.NewRequest takes the method and the target.
unfoldable pub receive :
    {S : Type 0}
    → String
    → Option Lease
    → (Request → Bool)
    → Handler S
    → String
    → String
    → Option MutationRequest
    → S
    → Exchange × S
unfolding valid_bearer is_mutation valid_forward_path forwarded_request
receive token own accepts public_handler method authorization input s =
    if not (method == "POST") || not (valid_bearer authorization token)
    then (marked "authentication" 401, s)
    else elim input [
      | none ↦ (marked "invalid" 400, s)
      | some m ↦
          if not (m.protocol == protocol_version)
            || not (is_mutation m.method)
            || not (valid_forward_path m.path)
          then (marked "invalid" 400, s)
          else if not (holds_lease own m.lease)
          then (marked "stale-epoch" 409, s)
          else if not (accepts (forwarded_request m))
          then (marked "invalid" 400, s)
          else (let (response, left) = public_handler (forwarded_request m) s in
              (
                answered (record response { headers = select_response_headers response.headers }),
                left,
              ))
    ]
