-- ===== src/Dispatch/Bundle.antt =====
-- runtime_bundle.rs.
use greentic_designer_extens.Base.{Text, codes, text_eq, if◌then◌else◌}
use greentic_designer_extens.Base.Outcome.{Outcome, ◌>>=◌, ◌>>◌}
use greentic_designer_extens.Capability.Contract.{Semver, Contract}
use greentic_designer_extens.Llm.Defs.{HostCallContext}
use greentic_designer_extens.Runtime.Defs.{RuntimeError, LoadedExtension, ExtensionRuntime}
use greentic_designer_extens.Types.Wit
use greentic_designer_extens.Types.Defs as Host
use greentic_designer_extens.Types.Maps.{from_bundle_v01, from_bundle_v02}
use greentic_designer_extens.Dispatch.Guest.{
  Guest, render_v1, render_v2, bundle_versions, resolve_iface_versions, resolve_func, surface_as,
  dispatch_instance,
}

abbrev pub bundling_iface : Text
bundling_iface = codes "greentic:extension-bundle/bundling"

unfoldable pub wit_session : Host.BundleSession → Wit.DesignerSession
wit_session b = record {
  flows_json = b.flows_json;
  contents_json = b.contents_json;
  assets = b.assets;
  capabilities_used = b.capabilities_used;
}

unfoldable pub artifact_of_wit : Wit.BundleArtifact → Host.BundleArtifact
artifact_of_wit a = record { filename = a.filename; bytes = a.bytes; sha256 = a.sha256 }

-- The call of `render` at the type of its version.
unfoldable pub call_render :
    Guest
    → Text
    → Text
    → Text
    → Text
    → Host.BundleSession
    → Outcome RuntimeError Host.BundleArtifact
unfolding surface_as wit_session artifact_of_wit from_bundle_v01 from_bundle_v02
call_render g iface_name version recipe_id config_json session =
    if text_eq version (codes "0.2.0")
    then surface_as artifact_of_wit from_bundle_v02 (
        g.call render_v2 iface_name (codes "render")
          (recipe_id, (config_json, wit_session session)))
    else surface_as artifact_of_wit from_bundle_v01 (
        g.call render_v1 iface_name (codes "render")
          (recipe_id, (config_json, wit_session session)))

unfoldable pub render_in :
    Guest → Text → Text → Host.BundleSession → Outcome RuntimeError Host.BundleArtifact
unfolding resolve_iface_versions resolve_func call_render
render_in g recipe_id config_json session = do
  found ← resolve_iface_versions g bundling_iface bundle_versions
  resolve_func g found.0 (codes "render")
  call_render g found.0 found.1 recipe_id config_json session

module _ (s : Semver) (c : Contract)
    (build : HostCallContext → LoadedExtension s c → Outcome Text Guest) where
  unfoldable pub render_bundle :
      ExtensionRuntime s c
      → Text
      → Text
      → Text
      → Host.BundleSession
      → Outcome RuntimeError Host.BundleArtifact
  unfolding dispatch_instance render_in
  render_bundle r ext_id recipe_id config_json session = do
    g ← dispatch_instance s c build r ext_id
    render_in g recipe_id config_json session
