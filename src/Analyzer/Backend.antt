-- ===== src/Analyzer/Backend.antt =====
-- internal/analyzer/analyzer.go: the interface of an analysis backend. A backend calls a service
-- over the network, so what it answers to a request is an argument of the wrappers' operations.
use wormsign.Common.{String}

-- The part of `Analyzer` that a wrapper keeps: `Name()`.
pub record Analyzer : Type 0 where
  pub name : String

-- Which backend a wrapper sent a request to.
pub data Call : Type 0 where
  to_primary to_fallback : Call
