-- ===== src/Machine.antt =====
-- The state that the daemon acts on: what is left to read of the `strings.Reader` through which
-- the keyring is given its passphrase, and everything outside the process.
use covenant.Prelude.{String}

pub record World (W : Type 0) : Type 0 where
  pub input : String
  pub outside : W
