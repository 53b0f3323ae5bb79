-- ===== src/Daemon.antt =====
-- The whole daemon, as `start` of cmd/covd/start.go puts it together: the server over the emulator,
-- and the emulator over the client of the Babylon chain.
pub mod Warranted
pub mod Deeds
pub mod Chain
use covenant.Libraries.{Btc}
use covenant.Machine.{World}
use covenant.Controller.Babylon.{BabylonController, client_controller}
use covenant.Emulator.Defs.{CovenantEmulator}

-- The emulator with the Babylon controller as its client.
abbrev pub over_babylon :
    {b : Btc} {W : Type 0}
    → CovenantEmulator b W
    → BabylonController b (World W)
    → CovenantEmulator b W
over_babylon ce bc = record ce { cc = client_controller bc }
