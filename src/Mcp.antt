-- ===== src/Mcp.antt =====
-- External tools over the Model Context Protocol (backend/app/services/mcp): the configured servers,
-- what they advertise, and the installation of their tools. The wire protocol of client.py is a
-- parameter of the modules below: what a server answers to `tools/list`, and how a call ends.
pub mod Config
pub mod Discovery
pub mod Bridge
pub mod Naming
pub mod Configured
pub mod Foreign
pub mod Installed
use gummy_os.Common.{ℕ, Text, Bool, List}
use gummy_os.Models.{PermissionTier}
use gummy_os.Tools.{Value, Fields}

pub data Transport : Type 0 where
  http : (url : Text) (token : Value) → Transport
  stdio : (command : Text) (args : List Text) → Transport

-- `green` is a frozenset: only its members matter.
pub record McpServerConfig : Type 0 where
  pub name : Text
  pub transport : Transport
  pub green : List Text
  pub enabled : Bool

pub record McpToolDefinition : Type 0 where
  pub name : Text
  pub description : Text
  pub input_schema : Fields

pub record DiscoveredTool : Type 0 where
  pub key : Text
  pub server : McpServerConfig
  pub definition : McpToolDefinition
  pub tier : PermissionTier

-- `config_error` is an `MCPConfigError`; `uncaught` any other exception, an `AttributeError` or the
-- `ValueError` of `str` at a number of too many digits.
pub data ConfigError : Type 0 where
  config_error uncaught : ConfigError
