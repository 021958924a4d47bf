-- ===== src/Protocol/Endpoint/Invariant/Calls.antt =====
-- shared/protocol/protocol_endpoint.cpp: runs of calls against the invariant of the session.
use mathlib.Core.Option
use espview.Base.{Bool, Option}
use espview.Protocol.Message.{Message}
use espview.Protocol.Endpoint.{Endpoint}
