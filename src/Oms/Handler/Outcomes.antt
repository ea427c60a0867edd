-- ===== src/Oms/Handler/Outcomes.antt =====
-- What `processOrder` of handler.go does with a request.
use aipx.Prelude.{String, true, false, none, ◌≡◌, refl, ap, ◌⊎◌, inl, inr, Option-cases}
use aipx.Prelude.Int.{ℤ}
use aipx.Float.{FloatOps}
use aipx.Oms.Order.{Order}
use aipx.Oms.Limiter.{Limiter, AllowResult, AllowError, answer, failed, allow}
use aipx.Oms.Risk.Rules.{FingerprintData}
use aipx.Oms.Risk.Engine.{Engine, validate}
use aipx.Oms.Executor.{ExecuteResult, executed, create_failed, execution_failed, execute}
use aipx.Oms.Handler.{
  PbRequest, PbStatus, pb_accepted, pb_rejected, Message, HandlerEnv, Service, send_response,
  respond, validate_request, proto_to_order, execute_step, risk_step, rate_step, process_order,
  order_submitted, rate_check_failed, rate_exceeded, risk_failed,
}

AllowResult-cases :
    (r : AllowResult)
    → ((r ≡ answer true) ⊎ (r ≡ answer false)) ⊎ ((x : AllowError) × (r ≡ failed x))
AllowResult-cases (answer true) = inl (inl refl)
AllowResult-cases (answer false) = inl (inr refl)
AllowResult-cases (failed x) = inr (x, refl)

module _ {F : Type 0} (fl : FloatOps F) (digest : FingerprintData → String) (limiter : Limiter)
    (engine : Engine F) (max_retries : ℤ) (env : HandlerEnv) (req : PbRequest F)
    (user_id : String) where
  -- The request has passed every check, and the executor has taken the order.
  pub record Accepted (s : Service F) : Type 0 where
    pub well_formed : validate_request fl digest req ≡ none
    pub within_rate : (allow limiter env.rate user_id s.limits).0 ≡ answer true
    pub risk_passed :
        (validate fl digest env.risk engine (proto_to_order fl digest req user_id) s.redis).0 ≡ none
    pub taken :
        (execute fl.zero max_retries env.execution (proto_to_order fl digest req user_id) s.world).0
        ≡ executed

  -- The tables, the broker and Kafka are reached only with the approval of the limiter and of the
  -- risk engine.
  abbrev pub IsGuarded : Service F → Service F → Type 0
  IsGuarded s s' =
      (s'.world ≡ s.world)
      ⊎ ((validate_request fl digest req ≡ none)
          × ((allow limiter env.rate user_id s.limits).0 ≡ answer true)
          × ((validate fl digest env.risk engine (proto_to_order fl digest req user_id) s.redis).0
              ≡ none))

  -- What `processOrder` leaves: one more response, which accepts just the requests that passed; and
  -- without the approval of the limiter and of the risk engine nothing reaches the tables, the
  -- broker or Kafka.
  pub record IsHandled (s s' : Service F) : Type 0 where
    pub answered :
        (status : PbStatus) × (message : Message) × (s'.responses
          ≡ send_response env.send_up req.id status message s.responses)
        × ((status ≡ pb_accepted → Accepted s) × ((status ≡ pb_accepted) ⊎ (status ≡ pb_rejected)))
    pub guarded : IsGuarded s s'

  -- A request that is turned away with the state `s'`.
  turned_away :
      (s s' : Service F) (m : Message)
      → s'.responses ≡ s.responses
      → IsGuarded s s'
      → IsHandled s (respond fl digest limiter engine max_retries env req.id pb_rejected m s')
  turned_away s s' m same guard = record {
    answered = (
      pb_rejected,
      m,
      ap (send_response env.send_up req.id pb_rejected m) same,
      (λ h. absurd (different h), inr refl),
    );
    guarded = guard;
  }
    where
      different : pb_rejected ≡ pb_accepted → ⊥
      different h = cc

  abbrev ordered : Order F
  ordered = proto_to_order fl digest req user_id

  module _ (s : Service F) where
    abbrev limited : Service F
    limited = record s { limits = (allow limiter env.rate user_id s.limits).1 }

    abbrev checked : Service F
    checked = record limited { redis = (validate fl digest env.risk engine ordered s.redis).1 }

    process_execute :
        validate_request fl digest req ≡ none
        → (allow limiter env.rate user_id s.limits).0 ≡ answer true
        → (validate fl digest env.risk engine ordered s.redis).0 ≡ none
        → process_order fl digest limiter engine max_retries env req user_id s
          ≡ execute_step fl digest limiter engine max_retries env req ordered checked
    unfolding process_order rate_step risk_step
    process_execute form rate risk =
        rw (form, process_order) (rw (rate, rate_step) (rw (risk, risk_step)))

    execute_step-IsHandled :
        (x : ExecuteResult)
        → validate_request fl digest req ≡ none
        → (allow limiter env.rate user_id s.limits).0 ≡ answer true
        → (validate fl digest env.risk engine ordered s.redis).0 ≡ none
        → (execute fl.zero max_retries env.execution ordered s.world).0 ≡ x
        → IsHandled s (execute_step fl digest limiter engine max_retries env req ordered checked)
    unfolding execute_step
    execute_step-IsHandled executed form rate risk e =
        rw (e, execute_step)
          (record {
            answered = (
              pb_accepted,
              order_submitted,
              refl,
              (
                λ h. record {
                  well_formed = form;
                  within_rate = rate;
                  risk_passed = risk;
                  taken = e;
                },
                inl refl,
              ),
            );
            guarded = inr (form, rate, risk);
          })
    execute_step-IsHandled create_failed form rate risk e =
        rw (e, execute_step)
          (turned_away s
            (record checked {
              world = (execute fl.zero max_retries env.execution ordered s.world).1;
            })
            Message.execution_failed refl (inr (form, rate, risk)))
    execute_step-IsHandled execution_failed form rate risk e =
        rw (e, execute_step)
          (turned_away s
            (record checked {
              world = (execute fl.zero max_retries env.execution ordered s.world).1;
            })
            Message.execution_failed refl (inr (form, rate, risk)))

    -- `processOrder` answers each request with just one response, which has the request's id and
    -- says accepted or rejected. It says accepted only where the request is well formed, the rate
    -- limiter allows the user one more, the risk engine lets the order through and the executor has
    -- taken it; and it touches the tables, the broker and Kafka only where the first three hold.
    pub process_order-IsHandled :
        IsHandled s (process_order fl digest limiter engine max_retries env req user_id s)
    unfolding process_order rate_step risk_step
    process_order-IsHandled = elim (Option-cases (validate_request fl digest req)) [
      | inr (m, e) ↦ rw (e, process_order) (turned_away s s m refl (inl refl))
      | inl form ↦ elim (AllowResult-cases (allow limiter env.rate user_id s.limits).0) [
        | inr (x, e) ↦
            rw (form, process_order)
              (rw (e, rate_step) (turned_away s limited rate_check_failed refl (inl refl)))
        | inl (inr e) ↦
            rw (form, process_order)
              (rw (e, rate_step) (turned_away s limited rate_exceeded refl (inl refl)))
        | inl (inl rate) ↦
            elim (Option-cases (validate fl digest env.risk engine ordered s.redis).0) [
              | inl risk ↦ rw (process_execute form rate risk) (
                  execute_step-IsHandled
                    (execute fl.zero max_retries env.execution ordered s.world).0 form rate risk
                    refl)
              | inr (x, e) ↦
                  rw (form, process_order)
                    (rw (rate, rate_step)
                      (rw (e, risk_step) (turned_away s checked (risk_failed x) refl (inl refl))))
            ]
      ]
    ]
