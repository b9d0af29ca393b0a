-- ===== src/Lib.antt =====
-- The extension runtime (crates/greentic-ext-runtime): what a WebAssembly extension may reach, which
-- extensions are loaded, and what the host does when their files change.
--
-- The host loads extensions from directories, keeps them in a map with a registry of the capabilities
-- that they offer, and reloads or drops them as a watcher reports changes. An extension's calls out of
-- its sandbox go through the host: a network request passes the allow-list that its declaration and the
-- operator's list give together, a secret passes the declared prefixes, and memory, tables and time are
-- bounded for each call.
--
-- Files, and the code that they model (paths below crates/greentic-ext-runtime/src):
--   Url         url_matcher.rs: a pattern, the matcher, `is_allowed`. Url.Crate is the url crate, as an
--               interface; a text is its list of bytes.
--   Net         net_permissions.rs, http_scheme_policy.rs: `classify` and `effective_url_matcher`.
--   Fetch       host_state_net.rs: `fetch` with its redirect loop, over an interface for the HTTP
--               client, which says what a client sends that follows redirects itself. The state is the
--               list of the requests sent, which each step extends.
--   Capability  capability.rs: `CapabilityRegistry`, `resolve`, `detect_cycle`. semver, the contract
--               crate and what wasmtime compiles are interfaces (Capability.Contract); a map is an association list.
--   Limits      limits.rs: `PackLimits` with `memory_growing` and `table_growing`, `deadline_ticks`,
--               `http_timeout_for`. A duration is in nanoseconds; `usize` and `u64` have 64 bits.
--   Runtime     runtime.rs, runtime_registry.rs: the state (loaded map, registry, events),
--               `mutate_loaded`, registration, hot reload, eviction. The lock makes the edits one after
--               another, so each is a function on the state. What verification and loading of a
--               directory answer is the parameter `Gate`, which Load fills.
--   Watch       runtime_watch.rs: `handle_fs_event`, `find_extension_dir`, evictions; the events of
--               watcher.rs; the paths and `scan_kind_dir` of discovery.rs. The file system is a
--               parameter. Watch.Runs has the runs of all the operations.
--   Secrets     host_state_ports.rs: `secrets::get` and `broker::call_extension`, over the backend as a
--               parameter.
--   Log         host_state_ports.rs: `clamp`, `log` and `log_kv`.
--   Verify      runtime_verify.rs: `verify_dir_signature`, `verify_dir_manifest`, the walk over the
--               directory, `read_verified`. The state is the trust store. The file system, the digest,
--               the contract crate and the trust store's pin are interfaces (Verify.Sdk).
--               `pack_relative_path`: where a path stands in the pack.
--   Load        loaded.rs, and the load in runtime_registry.rs: `wasm_component_path`, `from_verified`,
--               from the directory to what is registered, with its component. The compiler is an
--               interface.
--   Llm         host_state_llm.rs, and the port of host_ports.rs: `resolve_llm_role`, `complete`, and
--               `embed` with its caps. The port is an interface.
--   Oauth       host_state_oauth.rs, oauth.rs: the gates of a call, the endpoint, the token requests.
--   Types       types.rs, ext_error.rs and the maps of runtime_roles.rs, runtime_deploy.rs and
--               runtime_design.rs. Types.Wit is what the interface files in wit declare, and Types.Names
--               has the names of the variants on each side.
--   Views       runtime_views.rs: `list_views`, `view_to_definition`, the placement of a view.
--   Dispatch    the interface lookups of runtime.rs, and the operations of runtime_design.rs,
--               guardrail_map.rs, runtime_roles.rs, runtime_deploy.rs, runtime_targets.rs,
--               runtime_knowledge.rs, runtime_bundle.rs and runtime_dw_composer.rs. A running guest is
--               an interface (Dispatch.Guest).
--   Host        host_state.rs, and the overrides and `build_store_and_instance` of loaded.rs: the state
--               of a store, from a declaration, what the host supplies, and the dispatch.
--   Report      tool_metadata_report.rs: the tools whose metadata is incomplete.
--   Base        helpers: texts and the functions of `str`, Boolean tests, lists, `Option` and `Result`.
--
-- Bounds and fuel: the redirect loop runs for the ten hops that the code allows. The search for cycles
-- runs on one more round than there are extensions, which is enough since no extension is entered while
-- it is on the path. `trim_end_matches` runs on the length of its text, which is enough since a round
-- takes a byte at least. The walk over a directory runs on the nesting that the code allows, and past
-- it answers the code's error. All other functions recurse on their data.
--
-- Not modelled: the log lines of the host itself, the threads of the ticker and of the watcher,
-- wasmtime, the feature that loads unsigned packs, the configuration of the runtime with its search for
-- the trust root, the Debug output that hides secrets, the record of an extension's health, and the WIT
-- lint crate. The messages of errors are kept as the kind of the error and what it names, unless the
-- host parses them.
pub mod Base
pub mod Types
pub mod Url
pub mod Net
pub mod Fetch
pub mod Host
pub mod Capability
pub mod Limits
pub mod Runtime
pub mod Watch
pub mod Secrets
pub mod Log
pub mod Load
pub mod Views
pub mod Llm
pub mod Dispatch
pub mod Report
pub mod Oauth
pub mod Verify
