-- ===== src/Dispatch/Invoked.antt =====
-- The calls whose types differ between two versions of an interface: which function of the guest is
-- called, at which type, and what comes back.
use greentic_designer_extens.Base.{none, Text}
use greentic_designer_extens.Base.Outcome.{Outcome}
use greentic_designer_extens.Capability.Contract.{Semver, Contract}
use greentic_designer_extens.Llm.Defs.{HostCallContext}
use greentic_designer_extens.Runtime.Defs.{LoadedExtension, ExtensionRuntime}
use greentic_designer_extens.Types.Defs as Host
use greentic_designer_extens.Dispatch.Guest.{Guest, dispatch_instance}
use greentic_designer_extens.Dispatch.Design.{invoke_tool_ctx}
use greentic_designer_extens.Dispatch.Targets.{credential_schema}
use greentic_designer_extens.Dispatch.Knowledge.{knowledge_get}
use greentic_designer_extens.Dispatch.Bundle.{render_bundle}
use greentic_designer_extens.Dispatch.Composer.{invoke_composer_compose}
use greentic_designer_extens.Dispatch.Called.{Invoked, invoked_lem}
use greentic_designer_extens.Dispatch.Versions.{
  ToolCalled, EntryCalled, SchemaCalled, RenderCalled, ComposeCalled, invoke_in-ToolCalled,
  knowledge_get_in-EntryCalled, credential_schema_in-SchemaCalled, render_in-RenderCalled,
  compose_in-ComposeCalled,
}

-- The context of a call that no caller is named for.
abbrev pub no_caller : HostCallContext
no_caller = record { tenant = none; user_email = none }

module _ (s : Semver) (c : Contract)
    (build : HostCallContext → LoadedExtension s c → Outcome Text Guest) where
  pub record EachInvoked (r : ExtensionRuntime s c) (ext_id : Text) : Type 0 where
    pub tools :
        (tool args : Text) (ctx : HostCallContext)
        → Invoked s c build r ext_id ctx
            (ToolCalled tool args)
            (invoke_tool_ctx s c build r ext_id tool args ctx)
    pub entries :
        (entry : Text)
        → Invoked s c build r ext_id no_caller
            (EntryCalled entry)
            (knowledge_get s c build r ext_id entry)
    pub schemas :
        (target : Text)
        → Invoked s c build r ext_id no_caller
            (SchemaCalled target)
            (credential_schema s c build r ext_id target)
    pub bundles :
        (recipe config : Text) (session : Host.BundleSession)
        → Invoked s c build r ext_id no_caller
            (RenderCalled recipe config session)
            (render_bundle s c build r ext_id recipe config session)
    pub composers :
        (intent : Text)
        → Invoked s c build r ext_id no_caller
            (ComposeCalled intent)
            (invoke_composer_compose s c build r ext_id intent)

  -- The call of a tool, of a knowledge entry, of a credential schema, of the rendering of a bundle and
  -- of the composition of a manifest each run in an instance of the loaded extension, built for the
  -- caller's context where one is given, in the newest version of the interface that the instance
  -- exports, of those up to 0.3.0 or 0.2.0 that the host knows, at the type of errors of that version; a
  -- value comes back field by field, an error of the extension with its variant and its message, and
  -- every failure on the way as the first that occurs.
  pub dispatch_instance-EachInvoked :
      (r : ExtensionRuntime s c) (ext_id : Text) → EachInvoked r ext_id
  unfolding invoke_tool_ctx knowledge_get credential_schema render_bundle invoke_composer_compose
      dispatch_instance
  dispatch_instance-EachInvoked r ext_id = record {
    tools = λ tool args ctx.
        invoked_lem s c build r ext_id ctx _ _ (λ g. invoke_in-ToolCalled g tool args);
    entries = λ entry.
        invoked_lem s c build r ext_id no_caller _ _ (λ g. knowledge_get_in-EntryCalled g entry);
    schemas = λ target.
        invoked_lem s c build r ext_id no_caller _ _
          (λ g. credential_schema_in-SchemaCalled g target);
    bundles = λ recipe config session.
        invoked_lem s c build r ext_id no_caller _ _
          (λ g. render_in-RenderCalled g recipe config session);
    composers = λ intent.
        invoked_lem s c build r ext_id no_caller _ _ (λ g. compose_in-ComposeCalled g intent);
  }
