-- ===== src/Dispatch/Versions.antt =====
-- The functions whose types differ between two versions of their interface, in a guest: what each call
-- comes to.
use greentic_designer_extens.Base.{◌≡◌, refl, Text, codes}
use greentic_designer_extens.Base.Outcome.{Outcome, ok, err}
use greentic_designer_extens.Runtime.Defs.{RuntimeError}
use greentic_designer_extens.Types.Wit
use greentic_designer_extens.Types.Defs as Host
use greentic_designer_extens.Types.Defs.{HostExtensionError, code}
use greentic_designer_extens.Types.Names.{wire, variant_v1, variant_v2}
use greentic_designer_extens.Types.Wire.{v1_kept, v2_kept}
use greentic_designer_extens.Types.Maps.{
  from_design_v01, from_design_v03, from_deploy_v01, from_deploy_v02, from_bundle_v01,
  from_bundle_v02, from_composer_v01, from_composer_v02,
}
use greentic_designer_extens.Dispatch.Guest.{
  Guest, invoke_v1, invoke_v2, schema_v1, schema_v2, entry_v1, entry_v2, render_v1, render_v2,
  compose_v1, compose_v2, surface, surface_as,
}
use greentic_designer_extens.Dispatch.Design.{call_tool, invoke_in}
use greentic_designer_extens.Dispatch.Targets.{call_schema, credential_schema_in}
use greentic_designer_extens.Dispatch.Knowledge.{entry_of_wit, call_entry, knowledge_get_in}
use greentic_designer_extens.Dispatch.Bundle.{wit_session, artifact_of_wit, call_render, render_in}
use greentic_designer_extens.Dispatch.Composer.{
  resolve_dw_composer_iface, composed, call_compose, compose_in,
}
use greentic_designer_extens.Dispatch.Called.{
  Answered, trap, value, failure, surfaced, Same, surface-Answered, surface_as-Answered, Called,
  versioned, versioned-Called,
}

-- The host's value has the fields of the guest's.
abbrev pub SameEntry : Wit.Entry → Outcome RuntimeError Host.KnowledgeEntry → Type 0
SameEntry e r =
    (k : Host.KnowledgeEntry) × (r ≡ ok k)
    × (k.id ≡ e.id)
    × (k.title ≡ e.title)
    × (k.category ≡ e.category)
    × (k.tags ≡ e.tags)
    × (k.content_json ≡ e.content_json)

abbrev pub SameArtifact : Wit.BundleArtifact → Outcome RuntimeError Host.BundleArtifact → Type 0
SameArtifact a r =
    (b : Host.BundleArtifact) × (r ≡ ok b)
    × (b.filename ≡ a.filename)
    × (b.bytes ≡ a.bytes)
    × (b.sha256 ≡ a.sha256)

abbrev pub ToolCalled : Text → Text → Guest → Outcome RuntimeError Text → Type 0
ToolCalled tool args g =
    Called g (codes "greentic:extension-design/tools") 3 (codes "invoke-tool") 3
      (λ i r.
        Answered Same surfaced variant_v2 (g.call invoke_v2 i (codes "invoke-tool") (tool, args)) r)
      (λ i r.
        Answered Same surfaced variant_v1 (g.call invoke_v1 i (codes "invoke-tool") (tool, args)) r)

abbrev pub EntryCalled : Text → Guest → Outcome RuntimeError Host.KnowledgeEntry → Type 0
EntryCalled entry g =
    Called g (codes "greentic:extension-design/knowledge") 3 (codes "get-entry") 3
      (λ i r.
        Answered SameEntry surfaced variant_v2 (g.call entry_v2 i (codes "get-entry") entry) r)
      (λ i r.
        Answered SameEntry surfaced variant_v1 (g.call entry_v1 i (codes "get-entry") entry) r)

abbrev pub SchemaCalled : Text → Guest → Outcome RuntimeError Text → Type 0
SchemaCalled target g =
    Called g (codes "greentic:extension-deploy/targets") 2 (codes "credential-schema") 2
      (λ i r.
        Answered Same surfaced variant_v2 (g.call schema_v2 i (codes "credential-schema") target) r)
      (λ i r.
        Answered Same surfaced variant_v1 (g.call schema_v1 i (codes "credential-schema") target) r)

-- What a guest that renders a bundle is given.
abbrev pub render_args : Text → Text → Host.BundleSession → Text × (Text × Wit.DesignerSession)
render_args recipe config session = (
  recipe,
  (
    config,
    record {
      flows_json = session.flows_json;
      contents_json = session.contents_json;
      assets = session.assets;
      capabilities_used = session.capabilities_used;
    },
  ),
)

abbrev pub RenderCalled :
    Text → Text → Host.BundleSession → Guest → Outcome RuntimeError Host.BundleArtifact → Type 0
RenderCalled recipe config session g =
    Called g (codes "greentic:extension-bundle/bundling") 2 (codes "render") 2
      (λ i r.
        Answered SameArtifact surfaced variant_v2
          (g.call render_v2 i (codes "render") (render_args recipe config session)) r)
      (λ i r.
        Answered SameArtifact surfaced variant_v1
          (g.call render_v1 i (codes "render") (render_args recipe config session)) r)

-- The composer's own error is a value of the call.
abbrev pub Returned : Text → Outcome RuntimeError (Outcome HostExtensionError Text) → Type 0
Returned manifest r = r ≡ ok (ok manifest)

abbrev pub returned : HostExtensionError → Outcome RuntimeError (Outcome HostExtensionError Text)
returned x = ok (err x)

abbrev pub old_variant : Text → Text × Text
old_variant message = (codes "internal", message)

abbrev pub ComposeCalled :
    Text → Guest → Outcome RuntimeError (Outcome HostExtensionError Text) → Type 0
ComposeCalled intent g =
    Called g (codes "greentic:dw-composer/composer") 2 (codes "compose") 2
      (λ i r.
        Answered Returned returned variant_v2 (g.call compose_v2 i (codes "compose") intent) r)
      (λ i r.
        Answered Returned returned old_variant (g.call compose_v1 i (codes "compose") intent) r)

composed-Answered :
    {E : Type 0} (f : E → HostExtensionError) (variant : E → Text × Text)
    → ((e : E) → wire (f e) ≡ variant e)
    → (x : Outcome Text (Outcome E Text)) → Answered Returned returned variant x (composed f x)
unfolding composed
composed-Answered f variant h (err m) = trap m
composed-Answered f variant h (ok (ok a)) = value a (ok (ok a)) refl
composed-Answered f variant h (ok (err e)) = failure e (f e) (h e)

old_variant-kept : (m : Text) → wire (from_composer_v01 m) ≡ old_variant m
unfolding from_composer_v01 code
old_variant-kept m = refl

pub invoke_in-ToolCalled :
    (g : Guest) (tool args : Text) → ToolCalled tool args g (invoke_in g tool args)
unfolding invoke_in call_tool versioned
invoke_in-ToolCalled g tool args =
    versioned-Called g _ 3 _ 3 _ _
      (λ i. surface from_design_v03 (g.call invoke_v2 i (codes "invoke-tool") (tool, args)))
      (λ i. surface from_design_v01 (g.call invoke_v1 i (codes "invoke-tool") (tool, args)))
      (λ i. surface-Answered from_design_v03 variant_v2 (λ e. (v2_kept e).design) _)
      (λ i. surface-Answered from_design_v01 variant_v1 (λ e. (v1_kept e).design) _)

entry_kept : (e : Wit.Entry) → SameEntry e (ok (entry_of_wit e))
unfolding entry_of_wit
entry_kept e = (entry_of_wit e, refl, refl, refl, refl, refl, refl)

pub knowledge_get_in-EntryCalled :
    (g : Guest) (entry : Text) → EntryCalled entry g (knowledge_get_in g entry)
unfolding knowledge_get_in call_entry versioned
knowledge_get_in-EntryCalled g entry =
    versioned-Called g _ 3 _ 3 _ _
      (λ i. surface_as entry_of_wit from_design_v03 (g.call entry_v2 i (codes "get-entry") entry))
      (λ i. surface_as entry_of_wit from_design_v01 (g.call entry_v1 i (codes "get-entry") entry))
      (λ i.
        surface_as-Answered SameEntry entry_of_wit from_design_v03 variant_v2 entry_kept
          (λ e. (v2_kept e).design) _)
      (λ i.
        surface_as-Answered SameEntry entry_of_wit from_design_v01 variant_v1 entry_kept
          (λ e. (v1_kept e).design) _)

pub credential_schema_in-SchemaCalled :
    (g : Guest) (target : Text) → SchemaCalled target g (credential_schema_in g target)
unfolding credential_schema_in call_schema versioned
credential_schema_in-SchemaCalled g target =
    versioned-Called g _ 2 _ 2 _ _
      (λ i. surface from_deploy_v02 (g.call schema_v2 i (codes "credential-schema") target))
      (λ i. surface from_deploy_v01 (g.call schema_v1 i (codes "credential-schema") target))
      (λ i. surface-Answered from_deploy_v02 variant_v2 (λ e. (v2_kept e).deploy) _)
      (λ i. surface-Answered from_deploy_v01 variant_v1 (λ e. (v1_kept e).deploy) _)

artifact_kept : (a : Wit.BundleArtifact) → SameArtifact a (ok (artifact_of_wit a))
unfolding artifact_of_wit
artifact_kept a = (artifact_of_wit a, refl, refl, refl, refl)

pub render_in-RenderCalled :
    (g : Guest) (recipe config : Text) (session : Host.BundleSession)
    → RenderCalled recipe config session g (render_in g recipe config session)
unfolding render_in call_render versioned wit_session
render_in-RenderCalled g recipe config session =
    versioned-Called g _ 2 _ 2 _ _
      (λ i.
        surface_as artifact_of_wit from_bundle_v02
          (g.call render_v2 i (codes "render") (render_args recipe config session)))
      (λ i.
        surface_as artifact_of_wit from_bundle_v01
          (g.call render_v1 i (codes "render") (render_args recipe config session)))
      (λ i.
        surface_as-Answered SameArtifact artifact_of_wit from_bundle_v02 variant_v2 artifact_kept
          (λ e. (v2_kept e).bundle) _)
      (λ i.
        surface_as-Answered SameArtifact artifact_of_wit from_bundle_v01 variant_v1 artifact_kept
          (λ e. (v1_kept e).bundle) _)

pub compose_in-ComposeCalled :
    (g : Guest) (intent : Text) → ComposeCalled intent g (compose_in g intent)
unfolding compose_in call_compose resolve_dw_composer_iface versioned
compose_in-ComposeCalled g intent =
    versioned-Called g _ 2 _ 2 _ _
      (λ i. composed from_composer_v02 (g.call compose_v2 i (codes "compose") intent))
      (λ i. composed from_composer_v01 (g.call compose_v1 i (codes "compose") intent))
      (λ i. composed-Answered from_composer_v02 variant_v2 (λ e. (v2_kept e).composer) _)
      (λ i. composed-Answered from_composer_v01 old_variant old_variant-kept _)
