-- ===== src/Base/Errors.antt =====
-- The exceptions of the program: exceptions.py, and the built-in classes that the code raises or
-- catches. A message is named by a constructor of `Why`; the texts are not modelled.
use mathlib.Core.Path.{◌≡◌, refl}
use mathlib.Core.Logic.{◌⊎◌, inl, inr}
use mathlib.Core.Bool.{Bool, true, false}

pub data Why : Type 0 where
  -- codec.py
  v1_expects_object v2_expects_five v2_expects_array empty_text truncated_header truncated_fields
        bad_utf8 empty_frame bad_kind binary_requires_v2 control_requires_object field_too_long
        not_serializable bad_json lone_surrogate bad_ref :
      Why
  -- replies.py, messages.py
  bad_payload binary_reply_payload text_reply_payload reply_shape : Why
  -- authentication.py, client.py, client_types.py, client_state_machine.py
  bad_credential token_with_api_key invalid_transition bad_delay stop_with_delay
        error_with_reconnect policy_order bad_option already_running :
      Why
  -- default_decider.py, reconnect_controller.py
  terminal_handshake terminal_close suppressed decider_failed decider_async decider_no_decision
        decider_gate_delay :
      Why
  -- send_session.py
  bad_timeout duplicate_send send_lost send_cancelled write_deadline : Why
  -- topic_runtime.py, supervisor.py
  crashed closed_by_server not_joined malformed_reply join_ack_shape join_install join_rejected
        processor_failed rejoin_failed leave_rejected leave_deadline channel_retired join_deadline
        not_current params_failed params_shape params_encoding hook_async already_joined
        not_connected live_channel lost_before_send lost_during_send was_left connection_replaced
        join_timed_out connection_lost supervisor_stopped stopped_before_connecting connect_failed
        shutting_down application_event lifecycle_handler push_deadline client_not_connected
        cancelled float_overflow foreign :
      Why

pub data Exc : Type 0 where
  -- exceptions.py
  channel_error socket_error push_timeout_error : Why → Exc
  -- built-in classes
  type_error value_error runtime_error : Why → Exc
  timeout_error cancelled_error : Exc
  -- any other exception, such as one that a callback raises
  other_error : Why → Exc

-- What a call returns, or the exception that it raises.
pub data Result {ℓ} (A : Type ℓ) : Type ℓ where
  ok : (returned : A) → Result A
  err : (raised : Exc) → Result A

-- `if not condition: raise error`
abbrev pub guard : (condition : Bool) (error : Exc) → Result (Unit {0})
guard false error = err error
guard true error = ok tt

infixl 5 ◌>>=◌ ◌>>◌
-- The statements after one that may raise.
abbrev pub ◌>>=◌ {ℓ κ} : {A : Type ℓ} {B : Type κ} → Result A → (rest : A → Result B) → Result B
ok x >>= rest = rest x
err error >>= rest = err error

abbrev pub ◌>>◌ {κ} : {B : Type κ} → Result (Unit {0}) → Result B → Result B
first >> rest = first >>= λ done. rest

pub >>=-eq-ok {ℓ κ} :
    {A : Type ℓ} {B : Type κ} (first : Result A) (rest : A → Result B) {b : B}
    → (first >>= rest) ≡ ok b
    → (x : A) × (first ≡ ok x) × (rest x ≡ ok b)
>>=-eq-ok (err error) rest p = cc
>>=-eq-ok (ok x) rest p = (x, refl, p)

pub Result-cases {ℓ} :
    {A : Type ℓ} (r : Result A) → ((e : Exc) × (r ≡ err e)) ⊎ ((a : A) × (r ≡ ok a))
Result-cases (err e) = inl (e, refl)
Result-cases (ok a) = inr (a, refl)
