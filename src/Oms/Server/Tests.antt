-- ===== src/Oms/Server/Tests.antt =====
-- Calls through the chain of interceptors.
use aipx.Prelude.{◌≡◌, refl, ◌∷◌, [], List, ℕ, none, some}
use aipx.Oms.Server.{
  StreamContext, StreamHandler, panicked, returned, internal_server_error, serve, Received, request,
  end_of_file,
}
use aipx.Oms.Server.Callers.{run_as, caller, serve-caller}

abbrev no_token : StreamContext
no_token = record {
  metadata = some (record { authorization = []; user_id = "alice" ∷ [] });
  request_id_key = none;
  user_id_key = none;
}

-- A handler that panics for alice.
abbrev fussy : StreamHandler
fussy ctx = elim ctx.user_id_key [ none ↦ returned none | some u ↦ panicked ]

panic_recovered : serve "r1" fussy no_token ≡ returned (some internal_server_error)
unfolding serve
panic_recovered = refl

serve-caller_example :
    serve "r1" fussy no_token ≡ run_as "r1" fussy no_token (caller no_token.metadata)
serve-caller_example = serve-caller "r1" fussy no_token

abbrev alice : StreamContext
alice = record no_token { user_id_key = some "alice" }

abbrev the_stream : ℕ
the_stream = 7

abbrev received : List (Received ℕ)
received = request 1 ∷ request 2 ∷ end_of_file ∷ request 3 ∷ []
