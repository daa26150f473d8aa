-- ===== src/Mcp.antt =====
-- The mediators between the MCP server and the owners: tools/mcp_dispatch.py,
-- tools/mcp_recovery.py and tools/mcp_evidence_ingress.py.
pub mod Envelope
pub mod Dispatch
pub mod Binding
pub mod Recovery
pub mod Proven
pub mod Evidence
pub mod Checked
pub mod Admission
mod Tests
