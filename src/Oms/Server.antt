-- ===== src/Oms/Server.antt =====
-- services/order-management-service/internal/grpc: the interceptors of interceptors.go in the chain of
-- server.go, and StreamOrders of handler.go with what the handler needs of it. Logs and metrics are
-- left out; an id of a request is an argument.
pub mod Callers
pub mod Streams
mod Tests
use aipx.Prelude.{String, str_eq, Option, none, some, List, [], ◌∷◌, if◌then◌else◌}
use aipx.Prelude.Dict.{Dict, insert, erase}

pub record Metadata : Type 0 where
  pub authorization : List String
  pub user_id : List String

-- `stream.Context()`: the metadata, and the values under the keys of interceptors.go.
pub record StreamContext : Type 0 where
  pub metadata : Option Metadata
  pub request_id_key : Option String
  pub user_id_key : Option String

pub data StatusError : Type 0 where
  metadata_not_found invalid_token internal_server_error failed_to_receive : StatusError

-- How a handler of a stream ends: it returns, with an error or none, or panics.
pub data Ended : Type 0 where
  returned : Option StatusError → Ended
  panicked : Ended

abbrev pub StreamHandler : Type 0
StreamHandler = StreamContext → Ended

abbrev pub first_or_empty : List String → String
first_or_empty [] = ""
first_or_empty (s ∷ ss) = s

abbrev pub metadata_user : Option Metadata → String
metadata_user none = ""
metadata_user (some md) = first_or_empty md.user_id

-- `LoggingInterceptor`
unfoldable pub logging_interceptor : String → StreamHandler → StreamHandler
logging_interceptor request_id handler ctx = handler (record ctx {
  request_id_key = some request_id;
  user_id_key = some (metadata_user ctx.metadata);
})

-- The deferred function of `RecoveryInterceptor`.
abbrev pub recovered : Ended → Ended
recovered (returned e) = returned e
recovered panicked = returned (some internal_server_error)

-- `RecoveryInterceptor`
unfoldable pub recovery_interceptor : StreamHandler → StreamHandler
recovery_interceptor handler ctx = recovered (handler ctx)

-- `validateToken`
unfoldable pub validate_token : String → Option String
validate_token token = if str_eq token "" then none else some "user-123"

-- `AuthenticationInterceptor`
unfoldable pub authentication_interceptor : StreamHandler → StreamHandler
unfolding validate_token
authentication_interceptor handler ctx = elim ctx.metadata [
  | none ↦ returned (some metadata_not_found)
  | some md ↦ elim md.authorization [
    | [] ↦ handler ctx
    | token ∷ _ ↦ elim (validate_token token) [
      | none ↦ returned (some invalid_token)
      | some user ↦ handler (record ctx { user_id_key = some user })
    ]
  ]
]

-- `MetricsInterceptor`
unfoldable pub metrics_interceptor : StreamHandler → StreamHandler
metrics_interceptor handler ctx = handler ctx

-- The chain of `NewServer`, the first of which is the outermost.
unfoldable pub serve : String → StreamHandler → StreamHandler
unfolding recovery_interceptor logging_interceptor authentication_interceptor metrics_interceptor
serve request_id handler =
    recovery_interceptor
      (logging_interceptor request_id (authentication_interceptor (metrics_interceptor handler)))

-- `GetUserID` and `GetRequestID`
abbrev pub value_or_empty : Option String → String
value_or_empty none = ""
value_or_empty (some s) = s

-- What the loop of `StreamOrders` meets in its rounds.
pub data Received (R : Type 0) : Type 0 where
  context_done end_of_file receive_error : Received R
  request : R → Received R

module _ {R : Type 0} where
  -- The loop of `StreamOrders`, which starts a goroutine for each request: these, with their user,
  -- and how it ends; none where it still waits.
  unfoldable pub receive : String → List (Received R) → List (R × String) × Option Ended
  receive user [] = ([], none)
  receive user (context_done ∷ rs) = ([], some (returned none))
  receive user (end_of_file ∷ rs) = ([], some (returned none))
  receive user (receive_error ∷ rs) = ([], some (returned (some failed_to_receive)))
  receive user (request r ∷ rs) =
      let (started, ended) = receive user rs in ((r, user) ∷ started, ended)

  -- `StreamOrders`: the requests that are started, how it ends, and the streams while it runs and
  -- after it.
  unfoldable pub stream_orders :
      {S : Type 0}
      → StreamContext
      → S
      → List (Received R)
      → Dict S
      → (List (R × String) × Option Ended) × Dict S
  unfolding receive
  stream_orders ctx stream rs streams =
      let user = value_or_empty ctx.user_id_key in
      let kept = insert user stream streams in
      let went = receive user rs in (went, elim went.1 [ none ↦ kept | some e ↦ erase user kept ])
