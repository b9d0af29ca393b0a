-- ===== src/Dispatch/Examples.antt =====
-- An extension of the older contract, which denies what it is asked.
use greentic_designer_extens.Base.{◌≡◌, refl, true, none, [], ◌∷◌, Text, codes, text_eq}
use greentic_designer_extens.Base.Outcome.{Outcome, ok, err}
use greentic_designer_extens.Capability.Sample.{sample, kinds}
use greentic_designer_extens.Llm.Defs.{HostCallContext}
use greentic_designer_extens.Runtime.Defs.{
  extension, LoadedExtension, ExtensionRuntime, start, find_id,
}
use greentic_designer_extens.Types.Wit.{ErrorV1}
use greentic_designer_extens.Types.Defs.{HostExtensionError}
use greentic_designer_extens.Dispatch.Guest.{
  Guest, Signature, Args, Answer, default_ctx, at_version,
}
use greentic_designer_extens.Dispatch.Guardrail.{GuardrailJson}
use greentic_designer_extens.Dispatch.Design.{tools_iface, invoke_tool_ctx}
use greentic_designer_extens.Dispatch.Roles.{list_roles_of}
use greentic_designer_extens.Dispatch.Invoked.{EachInvoked, dispatch_instance-EachInvoked}
use greentic_designer_extens.Dispatch.Unknown.{AllNotFound, find_id-AllNotFound}

-- Every call but that of a tool traps.
abbrev denies : (sig : Signature) → Text → Text → Args sig → Outcome Text (Answer sig)
denies Signature.invoke_v1 iface func args = ok (err (ErrorV1.permission_denied args.0))
denies _ iface func args = err (codes "trap")

abbrev guest : Guest
guest = record {
  exports = text_eq (at_version tools_iface (codes "0.2.0"));
  has_func = λ iface func. true;
  call = denies;
}

abbrev demo : LoadedExtension sample kinds
demo = record {
  id = codes "demo";
  kind = codes "design";
  version = codes "1";
  offered = [];
  source_dir = codes "demo" ∷ [];
  component = codes "w";
}

abbrev runtime : ExtensionRuntime sample kinds
runtime = record (start sample kinds) { loaded = (codes "demo", demo) ∷ [] }

abbrev build : HostCallContext → LoadedExtension sample kinds → Outcome Text Guest
build ctx ext = ok guest

abbrev json : GuardrailJson
json = record { from_str = λ t. err t; to_string = λ v. ok [] }

denied_test :
    invoke_tool_ctx sample kinds build runtime (codes "demo") (codes "t") [] default_ctx
    ≡ err (extension (HostExtensionError.permission_denied (codes "t")))
unfolding invoke_tool_ctx
denied_test = refl

no_roles_test : list_roles_of sample kinds build runtime (codes "demo") ≡ ok []
unfolding list_roles_of
no_roles_test = refl

none_test : find_id sample kinds (codes "other") runtime.loaded ≡ none
unfolding find_id
none_test = refl

dispatch_instance-EachInvoked_example : EachInvoked sample kinds build runtime (codes "demo")
dispatch_instance-EachInvoked_example =
    dispatch_instance-EachInvoked sample kinds build runtime (codes "demo")

find_id-AllNotFound_example :
    AllNotFound sample kinds build {S = Unit {0}} json
      (λ e. codes "v1")
      (λ e. [])
      runtime
      (codes "other")
find_id-AllNotFound_example =
    find_id-AllNotFound sample kinds build {S = Unit {0}} json (λ e. codes "v1") (λ e. []) runtime
      (codes "other") none_test
