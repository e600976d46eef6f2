-- ===== src/Tools.antt =====
-- backend/app/schemas/tools.py, repositories/tool_executions.py and services/tool_execution.py:
-- the durable record of every tool call, and its replay by identity.
pub mod Results
pub mod Labels
pub mod Rows
pub mod Service
