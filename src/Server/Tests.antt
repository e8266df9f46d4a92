-- ===== src/Server/Tests.antt =====
-- Theorems about the server at concrete inputs.
use gput.Base.{ℕ, ◌≡◌, ◌↔◌, ok}
use gput.Server.Config.{ServerConfig, default_server_config, validate}
use gput.Server.Config.Bounds.{Accepted, validate-Accepted}

-- At 127.0.0.1, as a number.
abbrev local_config : ServerConfig ℕ
local_config = default_server_config 2130706433

validate-Accepted_example : (validate local_config ≡ ok tt) ↔ Accepted local_config
validate-Accepted_example = validate-Accepted local_config
