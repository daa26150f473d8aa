-- ===== src/Lib.antt =====
-- A verification library of the OUF API gateway's own tools (the Python modules under
-- tools/ and ops/apisix/).
--
-- The parts of the program and the files that model them:
--   * tools/compile_config.py turns the governed documents into routes, and
--     tools/activation_gate.py says which route may be activated: Config (Documents for the data,
--     Compile and Routes for the three loops of compile_config, Activation for
--     validate_route_activation; Disjoint and Gate hold their theorems).
--   * tools/publication.py publishes a compiled artifact through a control plane, of which
--     tools/apisix_control_plane.py is the adapter: Publication (Manifest, Store for the file
--     store, Publish for Publisher.publish step by step) and ControlPlane (the interface and the
--     APISIX adapter over an admin port).
--   * tools/operational_pressure.py limits the business slots of a scope: Pressure (Transition is
--     the ladder of modes, Decision the table of scopes with register_scope, observe and decision;
--     Floats is the interface of the float operations that the code uses; Recovery and Setback follow
--     runs of samples, Replay an observation that is sent again).
--   * tools/mcp_dispatch.py, tools/mcp_recovery.py and tools/mcp_evidence_ingress.py stand between
--     the MCP server and the owners, over the compiled routes: Mcp.
--   * tools/identity_boundary.py and tools/authorization_boundary.py: Boundary.
--   * tools/etcd_resilience.py gates publication and restore: Etcd.
--   * tools/operational_incidents.py keeps the incidents that publication and the etcd gate report,
--     tools/operational_cursor.py snapshots and pages their history (Cursor: Snapshot and Pages, with
--     Keyed on every sequence of captures and pages, Walk and Finish on reading from page to page),
--     tools/operational_bookmarks.py keeps read positions in it (Bookmarks: Flow and Start join it with
--     the cursors in one store, Reachable follows every sequence of calls), and
--     tools/operational_alert_outbox.py delivers alerts about them (Alerts: Owner, Enqueue, Dispatch and
--     Reconcile for the transactions, Send for `send_once` as a whole): Incidents, Alerts.
--   * tools/gateway_operational_api.py is what an owner asks about them: Owner (Query for the checks of
--     a query, Handle for the guards of a request and the direct listings).
--   * tools/southbound_security.py checks the destinations that the gateway calls: Southbound.
--   * tools/materialize_apisix_internal_m2m_routes.py,
--     tools/materialize_trusted_human_onboarding_runtime.py and tools/materialize_apisix_runtime.py
--     write APISIX routes out of an installation's values: Materialize (Workload and
--     Internal, Human and Onboarding, Endpoint, with the Lua guards' texts in Guards), over the JSON
--     documents of Document.
--   * ops/apisix/deploy_internal_m2m_routes.py and ops/apisix/deploy_status_execute.py install such
--     routes over the Admin API and restore them where that fails: Deploy (Routes and Status; Table
--     says what the scripts rely on of the Admin API).
--   * ops/apisix/rollout_r4a_runtime.py stages a container and rolls it back: Rollout (Held and Working say what
--     the script relies on of docker, Restored and Staged follow the original container).
--   * Base holds what they share: Boolean tests, lists, texts, dicts, and calls that raise.
--
-- How state and operations correspond: an object's fields and a database's tables are a record that
-- an operation takes and returns; a table with a primary or unique key is a list by that key. A
-- call that raises returns an Outcome, with the exceptions as a data type; where the state outlives
-- the exception, the operation returns both. Each operation that calls a port returns the calls it
-- makes beside its result. Clocks and uuid4 are arguments. A database transaction is one step;
-- where the code calls out between two transactions, the operation is two functions, and the
-- theorems on Alerts and Incidents are about every sequence of such steps.
--
-- Bounds: every loop is structural recursion over a list, a text or the number of attempts that are
-- left, so no function takes fuel. Numbers are natural numbers, times are seconds, milliseconds or the
-- texts that the code stores. A JSON document holds no floats.
--
-- What the code calls and the repository does not hold is a parameter: the Admin API and docker, with
-- named laws; json.dumps, str, urlsplit, urlparse, ipaddress and the resolver; the owner's
-- authorization, and the parsing of request bodies, UUIDs and timestamps.
--
-- What is not modelled: JSON and YAML reading, JSON schemas, SHA-256, HTTP and the upstreams,
-- which are arguments of the functions that use them or their results; exceptions that are no
-- Exception, such as an interrupt; the private files, command lines and launch options of the
-- scripts under ops/apisix, and the scripts there that repeat the shape of the modelled ones;
-- tools/apisix_admin_http.py, an HTTP client; the other tools/materialize_* and the release
-- scripts.
pub mod Alerts
pub mod Base
pub mod Bookmarks
pub mod Boundary
pub mod Config
pub mod ControlPlane
pub mod Cursor
pub mod Deploy
pub mod Document
pub mod Etcd
pub mod Incidents
pub mod Materialize
pub mod Mcp
pub mod Owner
pub mod Pressure
pub mod Publication
pub mod Rollout
pub mod Southbound
