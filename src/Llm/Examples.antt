-- ===== src/Llm/Examples.antt =====
-- A host that declares two roles, and one whose port embeds nothing.
use greentic_designer_extens.Base.{is_blank, ◌≡◌, refl, ◌⊎◌, none, some, [], ◌∷◌, codes}
use greentic_designer_extens.Base.Outcome.{ok, err}
use greentic_designer_extens.Llm.Defs.{
  LlmError, LlmHost, LlmPort, LlmRequest, unsupported, blank_input, port_error, EmbedRequest,
  ResponseFormat, default_embed, resolve_llm_role, complete, embed, hint_required, ask,
}
use greentic_designer_extens.Llm.Batch.{Embedded, EmbedCause, batch_of, embed_lem}
use greentic_designer_extens.Llm.Complete.{Completed, CompleteCause, complete_lem}

abbrev port : LlmPort
port = record {
  complete = λ id ctx role r. ok (record { content = r.system_prompt; total_tokens = some 7 });
  embed = default_embed;
}

abbrev two_roles : LlmHost
two_roles = record {
  extension_id = codes "demo";
  call_ctx = record { tenant = some (codes "acme"); user_email = none };
  llm_roles = codes "writer" ∷ codes "judge" ∷ [];
  llm_port = some port;
}

abbrev batch : EmbedRequest
batch = record { role_hint = some (codes "judge"); inputs = codes "one" ∷ codes "two" ∷ [] }

abbrev chat : LlmRequest
chat = record {
  role_hint = some (codes "writer");
  system_prompt = codes "be brief";
  messages = record { role = codes "user"; content = codes "hello" } ∷ [];
  response_format = some ResponseFormat.json;
}

unsupported_test :
    embed two_roles batch
    ≡ (err (port_error unsupported), ask two_roles (codes "judge") (batch_of batch) ∷ [])
unfolding embed is_blank
unsupported_test = refl

no_hint_test : resolve_llm_role none two_roles.llm_roles ≡ err hint_required
unfolding resolve_llm_role
no_hint_test = refl

blank_test :
    embed two_roles
      (record { role_hint = some (codes "judge"); inputs = codes "one" ∷ codes " " ∷ [] })
    ≡ (err (blank_input 1), [])
unfolding embed is_blank
blank_test = refl

embed_lem_example :
    Embedded two_roles batch
    ⊎ ((e : LlmError) × EmbedCause two_roles batch e × (embed two_roles batch ≡ (err e, [])))
embed_lem_example = embed_lem two_roles batch

complete_lem_example :
    Completed two_roles chat
    ⊎ ((e : LlmError) × CompleteCause two_roles chat e × (complete two_roles chat ≡ (err e, [])))
complete_lem_example = complete_lem two_roles chat
