-- ===== src/SshConfig/Reader.antt =====
-- crates/mai-core/src/ssh/config.rs: what a connector reads from the SSH configuration.
use multi_ai.Base.{Text, Result}
use multi_ai.Connect.Opening.{ConfigReader}
use multi_ai.SshConfig.{config_warnings}
use multi_ai.SshConfig.Resolve.{Params, HostSpec, resolve, jump_warnings, parse_config}

abbrev pub config_reader :
    {Config : Type 0}
    → (Text → Result Config Text)
    → (Config → Text → Params)
    → (Text → Text → Text)
    → ConfigReader Config HostSpec
config_reader parse query join = record {
  parse_config = parse_config parse;
  resolve = resolve query join;
  config_warnings = config_warnings;
  jump_warnings = jump_warnings query join;
}
