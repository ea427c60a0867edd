-- ===== src/Oms/Server/Streams.antt =====
-- Which requests of a stream StreamOrders starts, and the streams that it leaves.
use aipx.Prelude.{◌≡◌, refl, ap, String, Option, none, some, List, [], ◌∷◌, map}
use aipx.Prelude.Dict.{Dict, lookup, insert, lookup-insert_self, lookup-erase_self}
use aipx.Oms.Server.{
  StreamContext, Ended, value_or_empty, Received, context_done, end_of_file, receive_error, request,
  receive, stream_orders,
}

-- What is left under a user once the stream is registered, and has ended or not.
abbrev pub left : {S : Type 0} → S → Option Ended → Option S
left stream none = some stream
left stream (some e) = none

module _ {R : Type 0} where
  -- The requests in front of whatever ends the stream.
  abbrev pub requests_of : List (Received R) → List R
  requests_of [] = []
  requests_of (context_done ∷ rs) = []
  requests_of (end_of_file ∷ rs) = []
  requests_of (receive_error ∷ rs) = []
  requests_of (request r ∷ rs) = r ∷ requests_of rs

  receive-requests_of :
      (user : String) (rs : List (Received R))
      → (receive user rs).0 ≡ map (λ r. (r, user)) (requests_of rs)
  unfolding receive
  receive-requests_of user [] = refl
  receive-requests_of user (context_done ∷ rs) = refl
  receive-requests_of user (end_of_file ∷ rs) = refl
  receive-requests_of user (receive_error ∷ rs) = refl
  receive-requests_of user (request r ∷ rs) = ap (λ t. (r, user) ∷ t) (receive-requests_of user rs)

  -- The requests in front of the first end of a stream are started in their order, all for the user
  -- of its context; and the entry of that user is then the stream, where it has not ended, and gone
  -- where it has, whatever stream stood there before.
  pub stream_orders_started :
      {S : Type 0} (ctx : StreamContext) (stream : S) (rs : List (Received R)) (streams : Dict S)
      → ((stream_orders ctx stream rs streams).0.0
          ≡ map (λ r. (r, value_or_empty ctx.user_id_key)) (requests_of rs))
        × (lookup (value_or_empty ctx.user_id_key) (stream_orders ctx stream rs streams).1
            ≡ left stream (stream_orders ctx stream rs streams).0.1)
  unfolding stream_orders
  stream_orders_started ctx stream rs streams =
      let user = value_or_empty ctx.user_id_key in
      (receive-requests_of user rs, go (receive user rs).1 refl)
    where
      go :
          (ended : Option Ended)
          → (receive (value_or_empty ctx.user_id_key) rs).1 ≡ ended
          → lookup (value_or_empty ctx.user_id_key) (stream_orders ctx stream rs streams).1
            ≡ left stream (stream_orders ctx stream rs streams).0.1
      go none e =
          rw (stream_orders, e) (lookup-insert_self (value_or_empty ctx.user_id_key) stream streams)
      go (some x) e =
          rw (stream_orders, e)
            (lookup-erase_self (value_or_empty ctx.user_id_key)
              (insert (value_or_empty ctx.user_id_key) stream streams))
