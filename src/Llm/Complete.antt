-- ===== src/Llm/Complete.antt =====
-- `complete`: what the port is asked.
use greentic_designer_extens.Base.{
  ◌≡◌, refl, ◌⊎◌, inl, inr, Option, none, some, List, [], ◌∷◌, map, Text, Option-cases,
}
use greentic_designer_extens.Base.Outcome.{Outcome-cases, err}
use greentic_designer_extens.Llm.Defs.{
  LlmError, not_configured, LlmHost, LlmPort, LlmRequest, LlmPortRequest, Message, ResponseFormat,
  LlmPortResponseFormat, Asked, resolve_llm_role, answer, ask, port_request, port_format, complete,
}
use greentic_designer_extens.Llm.Roles.{
  Permits, RoleCause, resolve_llm_role_iff, resolve_llm_role_refused,
}

-- The format of the guest that a port's format stands for; no format is plain text.
abbrev pub guest_format : LlmPortResponseFormat → ResponseFormat
guest_format LlmPortResponseFormat.plain_text = ResponseFormat.plain_text
guest_format LlmPortResponseFormat.json = ResponseFormat.json
guest_format (LlmPortResponseFormat.json_schema s) = ResponseFormat.json_schema s

abbrev pub or_plain_text : Option ResponseFormat → ResponseFormat
or_plain_text none = ResponseFormat.plain_text
or_plain_text (some f) = f

abbrev pub message_of : Text × Text → Message
message_of m = record { role = m.0; content = m.1 }

-- The guest's request, read back from what the port is asked.
abbrev pub guest_request : Asked LlmPortRequest → LlmRequest
guest_request a = record {
  role_hint = some a.role;
  system_prompt = a.request.system_prompt;
  messages = map message_of a.request.messages;
  response_format = some (guest_format a.request.response_format);
}

-- A request with its role and its format written out.
abbrev pub spelled_out : Text → LlmRequest → LlmRequest
spelled_out role r = record {
  role_hint = some role;
  system_prompt = r.system_prompt;
  messages = r.messages;
  response_format = some (or_plain_text r.response_format);
}

messages_back :
    (ms : List Message) → map message_of (map (λ (m : Message). (m.role, m.content)) ms) ≡ ms
messages_back [] = refl
messages_back (m ∷ ms) = rw (messages_back ms) refl

format_back : (f : Option ResponseFormat) → guest_format (port_format f) ≡ or_plain_text f
unfolding port_format
format_back none = refl
format_back (some ResponseFormat.plain_text) = refl
format_back (some ResponseFormat.json) = refl
format_back (some (ResponseFormat.json_schema s)) = refl

-- What the port is asked says all of the guest's request: prompt, messages in order, and format.
pub guest_request-ask :
    (h : LlmHost) (role : Text) (r : LlmRequest)
    → guest_request (ask h role (port_request r)) ≡ spelled_out role r
unfolding port_request
guest_request-ask h role r = rw (messages_back r.messages, format_back r.response_format) refl

-- Why a call of `complete` does not reach the port.
abbrev pub CompleteCause : LlmHost → LlmRequest → LlmError → Type 0
CompleteCause h r e =
    RoleCause r.role_hint h.llm_roles e
    ⊎ (((role : Text) × Permits r.role_hint h.llm_roles role)
        × (h.llm_port ≡ none)
        × (e ≡ not_configured))

-- The call that reaches the port, and its answer.
pub record Completed (h : LlmHost) (r : LlmRequest) : Type 0 where
  pub role : Text
  pub port : LlmPort
  pub asked : LlmPortRequest
  pub permits : Permits r.role_hint h.llm_roles role
  pub configured : h.llm_port ≡ some port
  pub result :
      complete h r
      ≡ (answer (port.complete h.extension_id h.call_ctx role asked), ask h role asked ∷ [])
  pub whole : guest_request (ask h role asked) ≡ spelled_out role r

-- The port is asked once, for a permitted role, when the role is resolved and a port is there, and
-- its answer is passed on; the guest's prompt, messages and format can be read back from what it is
-- asked. Otherwise nothing is asked, and the error is the first of the two that fails.
pub complete_lem :
    (h : LlmHost) (r : LlmRequest)
    → Completed h r ⊎ ((e : LlmError) × CompleteCause h r e × (complete h r ≡ (err e, [])))
unfolding complete
complete_lem h r = elim (Outcome-cases (resolve_llm_role r.role_hint h.llm_roles)) [
  | inl (e, bad) ↦ inr (e, inl (resolve_llm_role_refused _ _ e bad), rw (bad, complete) refl)
  | inr (role, good) ↦
      let permits = (resolve_llm_role_iff r.role_hint h.llm_roles role).0 good in
      elim (Option-cases h.llm_port) [
        | inl none_there ↦ inr (
          not_configured,
          inr ((role, permits), none_there, refl),
          rw (good, none_there, complete) refl,
        )
        | inr (port, there) ↦ inl (record {
          role = role;
          port = port;
          asked = port_request r;
          permits = permits;
          configured = there;
          result = rw (good, there, complete) refl;
          whole = guest_request-ask h role r;
        })
      ]
]
