-- ===== src/Lib.antt =====
-- The covenant emulator (`covd`): a daemon that a member of Babylon's covenant committee runs. On
-- each tick of a ticker it updates the staking parameters, asks the Babylon chain for the pending
-- BTC delegations, leaves out those that it has signed, checks the transactions of the others, and
-- submits the covenant's signatures on the slashing tx, the unbonding tx and the slashing tx of the
-- unbonding tx, batch by batch.
--
-- The program's parts, each with the files that model it and the code that they stand for:
--   * types/ (Types): the delegations, undelegations, signatures and parameters, with their
--     methods. Types/Delegation has `Delegation`, `Undelegation`, `HasCovenantQuorum`,
--     `HasAllSignatures` and `GetStakingTime`; Types/Params has `StakingParams`; Types/StakingTime
--     and Types/Quorum say what the methods compute.
--   * config/ (Config): the settings. Config/Network has `Validate`, `LoadConfig` and the paths,
--     Config/Defaults the default settings and `BBNConfigToBabylonConfig`.
--   * keyring/ (Keyring): the access to the covenant's key. Keyring has `GetChainPrivKey`,
--     Keyring/Creation the constructors, Keyring/Account `CreateChainKey`.
--   * clientcontroller/ (Controller): Controller has the interface `ClientController`, a record of
--     operations over a state, which the emulator takes as a field; Controller/Babylon is the
--     implementation over Babylon's RPC client, Controller/Convert has `ConvertDelegationType` and
--     `ConvertUndelegationType`, Controller/Hex `hex.EncodeToString`, Controller/Fetched the
--     conversion of the parameters, Controller/Pages the loop of `QueryFinalityProviders`,
--     Controller/Operations the operations that the end-to-end tests use, Controller/Construction
--     the constructors, and Controller/Messages the chain's messages.
--   * covenant/covenant.go (Emulator): Emulator/Defs has the struct and `getPrivKey`;
--     Emulator/Signing the checks and signatures for one delegation and Emulator/Submit the loop and
--     the submission of `AddCovenantSignatures`; Emulator/Sanitize `removeAlreadySigned`;
--     Emulator/Batches `delegationsToBatches`; Emulator/Retry `getParamsWithRetry` and
--     `UpdateParams`; Emulator/Loop `covenantSigSubmissionLoop`; Emulator/Lifecycle `Start`, `Stop`
--     and the goroutine of the loop; Emulator/Construction `NewCovenantEmulator`; Emulator/Timelock
--     says what steps 2 to 4 of `AddCovenantSignatures` check of the unbonding time. Of the children of Emulator/Loop, Acts and
--     Ticks are on what the loop may do, Each on what it must, Once on what it does not do again, and
--     Starved on what it does not reach.
--   * covenant/service (Service): `NewCovenantServer` and `RunUntilShutdown`, with Service/Phases,
--     Service/Shutdown and Service/Returning on its runs.
--   * util/path.go (Util), log/log.go (Log) and codec/codec.go (Codec): paths and directories, the root
--     logger, and the codec of the keyring.
--   * cmd/covd (Command): Command/Init has `initHome`, Command/Key `createKey`, Command/Start `start`,
--     each with a child on what it leaves behind, and Command/Main the flags and `main`; Command/Ini
--     has what they rely on the configuration file for. Daemon puts the emulator over the Babylon
--     controller; Daemon/Warranted and Daemon/Deeds list what the whole does to the keyring and the
--     chain.
--   * itest/babylon_node_handler.go and itest/utils.go (Itest): the Babylon node that the end-to-end
--     tests run. Itest/Node has `babylonNode` and its methods, Itest/Handler `BabylonNodeHandler` and
--     `baseDir`; Itest/Node/Leaked, Itest/Node/Stopped and Itest/Node/Cycle are on its starts and
--     stops, Itest/Handler/Created on `NewBabylonNodeHandler`.
--   * testutil/datagen.go (Testutil): the random parameters and keys of the tests, with
--     Testutil/Generated on what is generated.
-- Prelude has the names that all files share: results, stateful calls, lists, words. Examples runs
-- the model over small libraries.
--
-- How the code is modelled. A function that can fail gives an `Outcome`: a value, an error, a panic,
-- or a run that is not over. A function that acts on the outside is an `Exec`: from a state to an
-- outcome and a state, which comes back also after an error or a panic. The state is a `World`: the
-- rest of the reader through which the keyring is given its passphrase, and everything outside of
-- the process, of any type. Pointers that the code tests or follows are `Option`s. Numbers are
-- natural numbers with the wrap-around of `uint16`, `uint32` and `uint64` written out where the code
-- computes with them. `AddCovenantSignatures` is split at its own numbered steps.
--
-- Everything from other packages is a parameter: btcd and Babylon's btcstaking in the record `Btc`
-- of Libraries, the cosmos keyring in `Keyring` and `KeyringPackage`, the RPC client in `BbnClient`
-- and `BbnPackage`, the reader and writer of the configuration file in `ConfigFiles`, the operating
-- system, on which path/filepath depends as well, in `Os` and, for the tests' node, in `NodeOs`,
-- the random values in `Datagen`, the codec in `CodecPackage`, and `retry.Do`. What is assumed of
-- them stands in the records `IsRetry` (the attempts of `retry.Do`), `IsMax` (`sdkmath.Max` is an
-- upper bound), `IsKeyring` and `IsPersistent` (what is stored is found, for the settings'
-- backend), `IsOneCurve` (the cosmos key and btcd have one public key), `IsReadBack` (a given
-- configuration that was written is read back), `IsPaged` (the chain answers with the first pending
-- delegations, up to the limit), `IsRecording` (it records the signatures by the daemon's key that
-- it has accepted and shows them), `IsDatagen` and `IsWorking` (random numbers are below their
-- bound, and the generators return); the other theorems hold for all libraries.
--
-- Fuel. `delegationsToBatches` and `QueryFinalityProviders` are loops without a bound; their models
-- take one unit of fuel for each round. For a batch size above 0, one unit more than there are
-- delegations is enough, and for the pages one unit for each page. With a batch size of 0 no fuel
-- is enough. What a tick may do is shown for every fuel, what it must do for enough of it.
--
-- Interleavings. Emulator/Lifecycle is a relation on states whose steps are those of `Start`, of
-- `Stop` and of the loop; a tick is one step at its start and one at its end, and any step of the
-- others can come between them. A tick that panics or that never returns has its last step too, with
-- the world that it leaves; after a panic the process has ended and takes no step. Service is a
-- relation over it, with the calls of `RunUntilShutdown` and the signal.
--
-- What is not modelled: what is logged; how the library cli reads the command line; the timeouts of
-- queries and the delays of the ticker and of `retry.Do`; the tests themselves and the mocks.
pub mod Prelude
pub mod Libraries
pub mod Types
pub mod Util
pub mod Log
pub mod Codec
pub mod Config
pub mod Machine
pub mod Keyring
pub mod Controller
pub mod Emulator
pub mod Service
pub mod Daemon
pub mod Command
pub mod Itest
pub mod Testutil
mod Examples
