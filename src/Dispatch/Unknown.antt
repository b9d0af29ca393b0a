-- ===== src/Dispatch/Unknown.antt =====
-- Calls into an extension that is not loaded.
use greentic_designer_extens.Base.{◌≡◌, refl, Option, none, List, Text, ℕ}
use greentic_designer_extens.Base.Outcome.{Outcome, err}
use greentic_designer_extens.Capability.Contract.{Semver, Contract}
use greentic_designer_extens.Llm.Defs.{HostCallContext}
use greentic_designer_extens.Runtime.Defs.{
  not_found, LoadedExtension, ExtensionRuntime, find_id, lookup,
}
use greentic_designer_extens.Types.Defs as Host
use greentic_designer_extens.Types.Defs.{unknown_role}
use greentic_designer_extens.Dispatch.Guest.{
  Guest, default_ctx, dispatch_instance_ctx, dispatch_instance,
}
use greentic_designer_extens.Dispatch.Guardrail.{GuardrailJson}
use greentic_designer_extens.Dispatch.Design.{
  Tool, invoke_tool_ctx, list_tools_of, validate_content_of, evaluate_guardrail,
}
use greentic_designer_extens.Dispatch.Roles.{
  list_roles_of, validate_role_of, compile_role, no_instance,
}
use greentic_designer_extens.Dispatch.Deploy.{deployment_call, deploy, deploy_poll, deploy_rollback}
use greentic_designer_extens.Dispatch.Targets.{
  validate_credentials, credential_schema, list_targets,
}
use greentic_designer_extens.Dispatch.Knowledge.{
  prompt_fragments, knowledge_list, knowledge_get, knowledge_suggest,
}
use greentic_designer_extens.Dispatch.Bundle.{render_bundle}
use greentic_designer_extens.Dispatch.Composer.{
  invoke_composer_metadata, invoke_composer_compose, invoke_composer_validate,
  invoke_composer_templates,
}

module _ (s : Semver) (c : Contract)
    (build : HostCallContext → LoadedExtension s c → Outcome Text Guest) where
  -- The calls of the host into an extension that answer an error of the runtime.
  pub record AllNotFound {S : Type 0} (json : GuardrailJson)
      (api_version : LoadedExtension s c → Text) (tools : LoadedExtension s c → List (Tool S))
      (r : ExtensionRuntime s c) (ext_id : Text) : Type 0 where
    pub invokes :
        (tool args : Text) (ctx : HostCallContext)
        → invoke_tool_ctx s c build r ext_id tool args ctx ≡ err (not_found ext_id)
    pub lists_tools : list_tools_of s c build api_version tools r ext_id ≡ err (not_found ext_id)
    pub validates :
        (kind content : Text)
        → validate_content_of s c build r ext_id kind content ≡ err (not_found ext_id)
    pub evaluates :
        (input : Text) → evaluate_guardrail s c build json r ext_id input ≡ err (not_found ext_id)
    pub lists_roles : list_roles_of s c build r ext_id ≡ err (not_found ext_id)
    pub validates_role :
        (name entry : Text)
        → validate_role_of s c build r ext_id name entry ≡ err (not_found ext_id)
    pub deploys :
        (req : Host.DeployRequest) → deploy s c build r ext_id req ≡ err (not_found ext_id)
    pub polls : (job : Text) → deploy_poll s c build r ext_id job ≡ err (not_found ext_id)
    pub rolls_back : (job : Text) → deploy_rollback s c build r ext_id job ≡ err (not_found ext_id)
    pub validates_credentials :
        (target credentials : Text)
        → validate_credentials s c build r ext_id target credentials ≡ err (not_found ext_id)
    pub shows_schema :
        (target : Text) → credential_schema s c build r ext_id target ≡ err (not_found ext_id)
    pub lists_targets : list_targets s c build r ext_id ≡ err (not_found ext_id)
    pub prompts : prompt_fragments s c build r ext_id ≡ err (not_found ext_id)
    pub lists_knowledge :
        (filter : Option Text) → knowledge_list s c build r ext_id filter ≡ err (not_found ext_id)
    pub gets_knowledge :
        (entry : Text) → knowledge_get s c build r ext_id entry ≡ err (not_found ext_id)
    pub suggests_knowledge :
        (query : Text) (limit : ℕ)
        → knowledge_suggest s c build r ext_id query limit ≡ err (not_found ext_id)
    pub renders :
        (recipe config : Text) (session : Host.BundleSession)
        → render_bundle s c build r ext_id recipe config session ≡ err (not_found ext_id)
    pub describes : invoke_composer_metadata s c build r ext_id ≡ err (not_found ext_id)
    pub composes :
        (intent : Text) → invoke_composer_compose s c build r ext_id intent ≡ err (not_found ext_id)
    pub checks_manifest :
        (manifest : Text)
        → invoke_composer_validate s c build r ext_id manifest ≡ err (not_found ext_id)
    pub lists_templates : invoke_composer_templates s c build r ext_id ≡ err (not_found ext_id)
    pub compiles :
        (name : Text) (target : Host.TargetKind) (entry : Text) (ctx : Option Host.CompileContext)
        → compile_role s c build r ext_id name target entry ctx ≡ err (unknown_role ext_id)

  lookup-none :
      (r : ExtensionRuntime s c) (ext_id : Text)
      → find_id s c ext_id r.loaded ≡ none
      → lookup s c r ext_id ≡ err (not_found ext_id)
  unfolding lookup
  lookup-none r ext_id e = rw (e, lookup) refl

  no_instance_lem :
      (r : ExtensionRuntime s c) (ext_id : Text) (ctx : HostCallContext)
      → find_id s c ext_id r.loaded ≡ none
      → dispatch_instance_ctx s c build r ext_id ctx ≡ err (not_found ext_id)
  unfolding dispatch_instance_ctx
  no_instance_lem r ext_id ctx e = rw (lookup-none r ext_id e, dispatch_instance_ctx) refl

  -- Whatever the guests are, each call into an extension that is not loaded answers that it is not found,
  -- and the compilation of a role that the role is unknown.
  pub find_id-AllNotFound :
      {S : Type 0} (json : GuardrailJson) (api_version : LoadedExtension s c → Text)
      (tools : LoadedExtension s c → List (Tool S)) (r : ExtensionRuntime s c) (ext_id : Text)
      → find_id s c ext_id r.loaded ≡ none
      → AllNotFound json api_version tools r ext_id
  unfolding invoke_tool_ctx list_tools_of validate_content_of evaluate_guardrail list_roles_of
      validate_role_of deploy deploy_poll deploy_rollback deployment_call compile_role
      dispatch_instance no_instance validate_credentials credential_schema list_targets
      prompt_fragments knowledge_list knowledge_get knowledge_suggest render_bundle
      invoke_composer_metadata invoke_composer_compose invoke_composer_validate
      invoke_composer_templates
  find_id-AllNotFound json api_version tools r ext_id e =
      let none_there = no_instance_lem r ext_id in
      record {
        invokes = λ tool args ctx. rw (none_there ctx e, invoke_tool_ctx) refl;
        lists_tools = rw (lookup-none r ext_id e, list_tools_of) refl;
        validates = λ kind content.
            rw (none_there default_ctx e, validate_content_of, dispatch_instance) refl;
        evaluates =
            λ input. rw (none_there default_ctx e, evaluate_guardrail, dispatch_instance) refl;
        lists_roles = rw (none_there default_ctx e, list_roles_of, dispatch_instance) refl;
        validates_role =
            λ name entry. rw (none_there default_ctx e, validate_role_of, dispatch_instance) refl;
        deploys =
            λ req. rw (none_there default_ctx e, deploy, deployment_call, dispatch_instance) refl;
        polls = λ job.
            rw (none_there default_ctx e, deploy_poll, deployment_call, dispatch_instance) refl;
        rolls_back = λ job.
            rw (none_there default_ctx e, deploy_rollback, deployment_call, dispatch_instance) refl;
        validates_credentials = λ target credentials.
            rw (none_there default_ctx e, validate_credentials, dispatch_instance) refl;
        shows_schema =
            λ target. rw (none_there default_ctx e, credential_schema, dispatch_instance) refl;
        lists_targets = rw (none_there default_ctx e, list_targets, dispatch_instance) refl;
        prompts = rw (none_there default_ctx e, prompt_fragments, dispatch_instance) refl;
        lists_knowledge =
            λ filter. rw (none_there default_ctx e, knowledge_list, dispatch_instance) refl;
        gets_knowledge =
            λ entry. rw (none_there default_ctx e, knowledge_get, dispatch_instance) refl;
        suggests_knowledge =
            λ query limit. rw (none_there default_ctx e, knowledge_suggest, dispatch_instance) refl;
        renders = λ recipe config session.
            rw (none_there default_ctx e, render_bundle, dispatch_instance) refl;
        describes = rw (none_there default_ctx e, invoke_composer_metadata, dispatch_instance) refl;
        composes = λ intent.
            rw (none_there default_ctx e, invoke_composer_compose, dispatch_instance) refl;
        checks_manifest = λ manifest.
            rw (none_there default_ctx e, invoke_composer_validate, dispatch_instance) refl;
        lists_templates =
            rw (none_there default_ctx e, invoke_composer_templates, dispatch_instance) refl;
        compiles = λ name target entry ctx.
            rw (none_there default_ctx e, compile_role, dispatch_instance, no_instance) refl;
      }
