-- ===== src/Config.antt =====
-- config/ServerConfig.hpp and .cpp. An address is kept as its text; `print` only logs.
use boost_server_example.Base.{ℕ, ◌%◌, ◌^◌, Bytes}
use boost_server_example.Base.Int.{ℤ, pos}
use boost_server_example.Base.Text.{codes}

pub record ServerConfig : Type 0 where
  pub workdir : Bytes
  pub address : Bytes
  pub ws_port : ℕ
  pub threads : ℤ

-- `loadConf`; `workdir_` is const.
abbrev pub load_conf : Bytes → ServerConfig
load_conf workdir = record {
  workdir = workdir;
  address = codes "127.0.0.1";
  ws_port = 8080 % 2 ^ 16;
  threads = pos 1;
}

-- The constructor.
unfoldable pub new_server_config : Bytes → ServerConfig
new_server_config workdir = load_conf workdir
