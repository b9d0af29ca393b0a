-- ===== src/Llm/Defs.antt =====
-- host_state_llm.rs, and the port of host_ports.rs that it calls. The port is a parameter. Error
-- texts are the constructors of `LlmError`, with the values that they print; what the port is asked
-- stands in the answer; log lines are left out.
use greentic_designer_extens.Base.{
  ℕ, suc, ◌+◌, ◌*◌, Option, none, some, List, [], ◌∷◌, map, Text, text_eq, any, length, ltb,
  is_blank, if◌then◌else◌,
}
use greentic_designer_extens.Base.Outcome.{Outcome, ok, err}

abbrev pub max_embed_inputs : ℕ
max_embed_inputs = 128

abbrev pub max_embed_bytes : ℕ
max_embed_bytes = 1024 * 1024

-- host_ports.rs
pub data LlmPortResponseFormat : Type 0 where
  plain_text json : LlmPortResponseFormat
  json_schema : (schema : Text) → LlmPortResponseFormat

pub record LlmPortRequest : Type 0 where
  pub system_prompt : Text
  pub messages : List (Text × Text)
  pub response_format : LlmPortResponseFormat

pub record LlmPortResponse : Type 0 where
  pub content : Text
  pub total_tokens : Option ℕ

pub record EmbedPortRequest : Type 0 where
  pub inputs : List Text

-- A vector is its `f32`s as bit patterns.
pub record EmbedPortResponse : Type 0 where
  pub vectors : List (List ℕ)
  pub model : Text

pub data LlmPortError : Type 0 where
  role_unassigned : (role : Text) → LlmPortError
  backend : (message : Text) → LlmPortError
  unsupported : LlmPortError

pub record HostCallContext : Type 0 where
  pub tenant : Option Text
  pub user_email : Option Text

pub record LlmPort : Type 0 where
  pub complete :
      Text → HostCallContext → Text → LlmPortRequest → Outcome LlmPortError LlmPortResponse
  pub embed :
      Text → HostCallContext → Text → EmbedPortRequest → Outcome LlmPortError EmbedPortResponse

-- The body of `embed` in the trait.
abbrev pub default_embed :
    Text → HostCallContext → Text → EmbedPortRequest → Outcome LlmPortError EmbedPortResponse
default_embed extension_id ctx role request = err unsupported

-- The part of `HostState` that these calls read.
pub record LlmHost : Type 0 where
  pub extension_id : Text
  pub call_ctx : HostCallContext
  pub llm_roles : List Text
  pub llm_port : Option LlmPort

pub data LlmError : Type 0 where
  role_not_permitted : (requested : Text) → LlmError
  no_roles hint_required not_configured inputs_empty : LlmError
  too_many_inputs too_many_bytes blank_input : (n : ℕ) → LlmError
  port_error : (error : LlmPortError) → LlmError

-- `resolve_llm_role`, of the hint and the declared roles.
unfoldable pub resolve_llm_role : Option Text → List Text → Outcome LlmError Text
resolve_llm_role (some h) roles =
    if any (λ r. text_eq r h) roles then ok h else err (role_not_permitted h)
resolve_llm_role none [] = err no_roles
resolve_llm_role none (sole ∷ []) = ok sole
resolve_llm_role none (r ∷ s ∷ roles) = err hint_required

-- The requests and responses of the WIT interface.
pub data ResponseFormat : Type 0 where
  plain_text json : ResponseFormat
  json_schema : (schema : Text) → ResponseFormat

pub record Message : Type 0 where
  pub role : Text
  pub content : Text

pub record LlmRequest : Type 0 where
  pub role_hint : Option Text
  pub system_prompt : Text
  pub messages : List Message
  pub response_format : Option ResponseFormat

pub record EmbedRequest : Type 0 where
  pub role_hint : Option Text
  pub inputs : List Text

-- What a port is asked: for whom, in which context, and for which role.
pub record Asked (R : Type 0) : Type 0 where
  pub extension_id : Text
  pub ctx : HostCallContext
  pub role : Text
  pub request : R

unfoldable pub port_format : Option ResponseFormat → LlmPortResponseFormat
port_format none = LlmPortResponseFormat.plain_text
port_format (some ResponseFormat.plain_text) = LlmPortResponseFormat.plain_text
port_format (some ResponseFormat.json) = LlmPortResponseFormat.json
port_format (some (ResponseFormat.json_schema s)) = LlmPortResponseFormat.json_schema s

unfoldable pub port_request : LlmRequest → LlmPortRequest
unfolding port_format
port_request r = record {
  system_prompt = r.system_prompt;
  messages = map (λ m. (m.role, m.content)) r.messages;
  response_format = port_format r.response_format;
}

abbrev pub answer : {A : Type 0} → Outcome LlmPortError A → Outcome LlmError A
answer (ok a) = ok a
answer (err e) = err (port_error e)

abbrev pub ask : {R : Type 0} → LlmHost → Text → R → Asked R
ask h role request = record {
  extension_id = h.extension_id;
  ctx = h.call_ctx;
  role = role;
  request = request;
}

unfoldable pub complete :
    LlmHost → LlmRequest → Outcome LlmError LlmPortResponse × List (Asked LlmPortRequest)
unfolding resolve_llm_role port_request
complete h request = elim (resolve_llm_role request.role_hint h.llm_roles) [
  | err e ↦ (err e, [])
  | ok role ↦ elim h.llm_port [
    | none ↦ (err not_configured, [])
    | some port ↦
        let req = port_request request in
        (answer (port.complete h.extension_id h.call_ctx role req), ask h role req ∷ [])
  ]
]

abbrev pub total_bytes : List Text → ℕ
total_bytes [] = 0
total_bytes (s ∷ inputs) = length s + total_bytes inputs

-- `position` of the first input that is white space alone.
unfoldable pub blank_position : List Text → Option ℕ
blank_position [] = none
blank_position (s ∷ inputs) =
    let rest = blank_position inputs in
    if is_blank s then some 0 else elim rest [ none ↦ none | some i ↦ some (suc i) ]

-- The caps on a batch.
unfoldable pub check_inputs : List Text → Outcome LlmError (Unit {0})
unfolding blank_position
check_inputs [] = err inputs_empty
check_inputs (s ∷ rest) =
    let inputs = s ∷ rest in
    if ltb max_embed_inputs (length inputs)
    then err (too_many_inputs (length inputs))
    else if ltb max_embed_bytes (total_bytes inputs)
    then err (too_many_bytes (total_bytes inputs))
    else elim (blank_position inputs) [ none ↦ ok tt | some i ↦ err (blank_input i) ]

unfoldable pub embed :
    LlmHost → EmbedRequest → Outcome LlmError EmbedPortResponse × List (Asked EmbedPortRequest)
unfolding resolve_llm_role check_inputs
embed h request = elim (resolve_llm_role request.role_hint h.llm_roles) [
  | err e ↦ (err e, [])
  | ok role ↦ elim (check_inputs request.inputs) [
    | err e ↦ (err e, [])
    | ok _ ↦ elim h.llm_port [
      | none ↦ (err not_configured, [])
      | some port ↦
          let req : EmbedPortRequest = record { inputs = request.inputs } in
          (answer (port.embed h.extension_id h.call_ctx role req), ask h role req ∷ [])
    ]
  ]
]
