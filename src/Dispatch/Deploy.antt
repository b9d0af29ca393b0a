-- ===== src/Dispatch/Deploy.antt =====
-- runtime_deploy.rs.
use greentic_designer_extens.Base.{Text, codes, text_eq, if◌then◌else◌}
use greentic_designer_extens.Base.Outcome.{Outcome, ok, err, ◌>>=◌, ◌>>◌}
use greentic_designer_extens.Capability.Contract.{Semver, Contract}
use greentic_designer_extens.Llm.Defs.{HostCallContext}
use greentic_designer_extens.Runtime.Defs.{
  RuntimeError, wasmtime, LoadedExtension, ExtensionRuntime,
}
use greentic_designer_extens.Types.Wit
use greentic_designer_extens.Types.Defs as Host
use greentic_designer_extens.Types.Defs.{DeployExtensionError}
use greentic_designer_extens.Types.Maps.{job_to_host, err_to_host, err_to_host_v2}
use greentic_designer_extens.Dispatch.Guest.{
  Guest, deploy_v1, deploy_v2, poll_v1, poll_v2, rollback_v1, rollback_v2, deploy_versions,
  resolve_iface_versions, resolve_func, dispatch_instance,
}

abbrev pub deployment_iface : Text
deployment_iface = codes "greentic:extension-deploy/deployment"

pub record DeploymentCall : Type 0 where
  pub guest : Guest
  pub iface_name : Text
  pub version : Text

-- The answer of a deployment function.
unfoldable pub deployed :
    {E A B : Type 0}
    → (A → B)
    → (E → DeployExtensionError)
    → Outcome Text (Outcome E A)
    → Outcome RuntimeError B
deployed f k (err m) = err (wasmtime m)
deployed f k (ok (ok a)) = ok (f a)
deployed f k (ok (err e)) = err (RuntimeError.deploy (k e))

abbrev pub same_unit : Unit {0} → Unit {0}
same_unit u = u

unfoldable pub wit_request : Host.DeployRequest → Wit.DeployRequest
wit_request req = record {
  target_id = req.target_id;
  artifact_bytes = req.artifact_bytes;
  credentials_json = req.credentials_json;
  config_json = req.config_json;
  deployment_name = req.deployment_name;
}

unfoldable pub deploy_in : Host.DeployRequest → DeploymentCall → Outcome RuntimeError Host.DeployJob
unfolding deployed wit_request job_to_host err_to_host err_to_host_v2
deploy_in req d =
    if text_eq d.version (codes "0.2.0")
    then deployed job_to_host err_to_host_v2
        (d.guest.call deploy_v2 d.iface_name (codes "deploy") (wit_request req))
    else deployed job_to_host err_to_host
        (d.guest.call deploy_v1 d.iface_name (codes "deploy") (wit_request req))

unfoldable pub poll_in : Text → DeploymentCall → Outcome RuntimeError Host.DeployJob
unfolding deployed job_to_host err_to_host err_to_host_v2
poll_in job_id d =
    if text_eq d.version (codes "0.2.0")
    then deployed job_to_host err_to_host_v2
        (d.guest.call poll_v2 d.iface_name (codes "poll") job_id)
    else deployed job_to_host err_to_host (d.guest.call poll_v1 d.iface_name (codes "poll") job_id)

unfoldable pub rollback_in : Text → DeploymentCall → Outcome RuntimeError (Unit {0})
unfolding deployed err_to_host err_to_host_v2
rollback_in job_id d =
    if text_eq d.version (codes "0.2.0")
    then deployed same_unit err_to_host_v2
        (d.guest.call rollback_v2 d.iface_name (codes "rollback") job_id)
    else deployed same_unit err_to_host
        (d.guest.call rollback_v1 d.iface_name (codes "rollback") job_id)

module _ (s : Semver) (c : Contract)
    (build : HostCallContext → LoadedExtension s c → Outcome Text Guest) where
  unfoldable pub deployment_call :
      ExtensionRuntime s c → Text → Text → Outcome RuntimeError DeploymentCall
  unfolding dispatch_instance resolve_iface_versions resolve_func
  deployment_call r ext_id func = do
    g ← dispatch_instance s c build r ext_id
    found ← resolve_iface_versions g deployment_iface deploy_versions
    resolve_func g found.0 func
    ok (record { guest = g; iface_name = found.0; version = found.1 })

  unfoldable pub deploy :
      ExtensionRuntime s c → Text → Host.DeployRequest → Outcome RuntimeError Host.DeployJob
  unfolding deployment_call deploy_in
  deploy r ext_id req = deployment_call r ext_id (codes "deploy") >>= deploy_in req

  unfoldable pub deploy_poll :
      ExtensionRuntime s c → Text → Text → Outcome RuntimeError Host.DeployJob
  unfolding deployment_call poll_in
  deploy_poll r ext_id job_id = deployment_call r ext_id (codes "poll") >>= poll_in job_id

  unfoldable pub deploy_rollback :
      ExtensionRuntime s c → Text → Text → Outcome RuntimeError (Unit {0})
  unfolding deployment_call rollback_in
  deploy_rollback r ext_id job_id =
      deployment_call r ext_id (codes "rollback") >>= rollback_in job_id
