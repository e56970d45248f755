-- ===== src/Formats.antt =====
-- internal/formats/engine.go: what a schema format's engine does for the rest. The engines are
-- arguments; `N` stands for the native values that they keep of a parsed schema.
use riquet.Domain.Queries.{lookup}
use riquet.Domain.Snapshot.{State}
use riquet.Domain.Types.{CompatibilityLevel, Reference, Schema, SchemaType}
use riquet.Prelude.{
  Bool, List, Option, String, false, if◌then◌else◌, none, number_eq, some, string_eq, ℕ, ◌^◌,
}

-- Limits, and DefaultLimits.
pub record Limits : Type 0 where
  pub max_schema_bytes : ℕ
  pub max_references : ℕ
  pub max_reference_depth : ℕ

abbrev pub default_limits : Limits
default_limits = record {
  max_schema_bytes = 2 ^ 20;
  max_references = 100;
  max_reference_depth = 20;
}

pub record ParseRequest : Type 0 where
  pub definition : String
  pub references : List Reference
  pub normalize : Bool
  pub limits : Limits

pub record Parsed (N : Type 0) : Type 0 where
  pub schema_type : SchemaType
  pub definition : String
  pub canonical : String
  pub identity : String
  pub references : List Reference
  pub native : N

-- Resolver; none is an error.
abbrev pub Resolver : Type 0
Resolver = Reference → Option Schema

-- Engine: Type, Parse and Compatible. An error has a text, and Compatible's messages are not
-- modelled.
pub record Engine (N : Type 0) : Type 0 where
  pub engine_type : SchemaType
  pub parse : ParseRequest → Resolver → Option (Parsed N)
  pub compatible : CompatibilityLevel → Parsed N → List (Parsed N) → Option Bool

-- Resolve of the stateResolver in internal/transport/confluent/server.go and of the appResolver in
-- internal/app/app.go: the active version that a reference names.
unfoldable pub resolve : State → Resolver
resolve s r =
    let (item, schema, found) = lookup s r.subject r.version false in
    if found then some schema else none
