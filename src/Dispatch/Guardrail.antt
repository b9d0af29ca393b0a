-- ===== src/Dispatch/Guardrail.antt =====
-- guardrail_map.rs. The JSON is read and written by parameters.
use greentic_designer_extens.Base.{Option, Text, codes, text_eq, if◌then◌else◌}
use greentic_designer_extens.Base.Outcome.{Outcome, ok, err, ◌>>=◌}
use greentic_designer_extens.Runtime.Defs.{RuntimeError, wasmtime}
use greentic_designer_extens.Dispatch.Guest.{
  Guest, Direction, inbound, outbound, Verdict, evaluate, trapped,
}

pub data GuardrailVerdictWire : Type 0 where
  accept : GuardrailVerdictWire
  update : (content : Text) → GuardrailVerdictWire
  deny : (code message : Text) → (details : Option Text) → GuardrailVerdictWire

pub record InputDto : Type 0 where
  pub direction : Text
  pub content : Text
  pub agent_id : Text
  pub session_id : Text
  pub tenant_id : Text
  pub env_id : Text
  pub context : Option Text

unfoldable pub parse_direction : Text → Outcome RuntimeError Direction
parse_direction raw =
    if text_eq raw (codes "inbound")
    then ok inbound
    else if text_eq raw (codes "outbound")
    then ok outbound
    else err (wasmtime raw)

unfoldable pub map_verdict : Verdict → GuardrailVerdictWire
map_verdict Verdict.accept = GuardrailVerdictWire.accept
map_verdict (Verdict.update content) = GuardrailVerdictWire.update content
map_verdict (Verdict.deny code message details) = GuardrailVerdictWire.deny code message details

-- `serde_json::from_str` and `to_string`, with the message of an error.
pub record GuardrailJson : Type 0 where
  pub from_str : Text → Outcome Text InputDto
  pub to_string : GuardrailVerdictWire → Outcome Text Text

unfoldable pub call_evaluate :
    GuardrailJson → Guest → Text → Text → Outcome RuntimeError GuardrailVerdictWire
unfolding parse_direction map_verdict
call_evaluate json g iface_name input_json = do
  dto ← trapped (json.from_str input_json)
  direction ← parse_direction dto.direction
  verdict ← trapped (
      g.call evaluate iface_name (codes "evaluate") (record {
        direction = direction;
        content = dto.content;
        agent_id = dto.agent_id;
        session_id = dto.session_id;
        tenant_id = dto.tenant_id;
        env_id = dto.env_id;
        context = dto.context;
      }))
  ok (map_verdict verdict)
