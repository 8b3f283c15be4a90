-- ===== src/R2.antt =====
-- src/r2_client.h and src/r2_client.c: the objects on the R2 server.
pub mod Sign
pub mod Transfer
pub mod Settings
pub mod Disk
use sshpad.Prelude.{Bytes, codes, ◌∷◌, [], length, ◌<◌}
use sshpad.Config.Host.{copy}

-- r2_config_t of src/r2_client.h.
pub record R2Config : Type 0 where
  pub endpoint : Bytes
  pub access_key_id : Bytes
  pub secret_access_key : Bytes
  pub bucket : Bytes
  pub object_key : Bytes

-- The texts fit their arrays.
pub record Fits (cfg : R2Config) : Type 0 where
  pub endpoint_fits : length cfg.endpoint < 512
  pub access_key_fits : length cfg.access_key_id < 128
  pub secret_fits : length cfg.secret_access_key < 256
  pub bucket_fits : length cfg.bucket < 128
  pub object_key_fits : length cfg.object_key < 256
