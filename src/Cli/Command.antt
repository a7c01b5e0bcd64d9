-- ===== src/Cli/Command.antt =====
-- `Command` of cli/src/command.rs: the commands with their arguments. `General` are the commands of
-- bpwallet. A contract id and a schema id are numbers, amounts too.
use rgb.Base.{ℕ, String, Bool, Option}

-- `IfaceStandard` of the interfaces crate
pub data IfaceStandard : Type 0 where
  rgb20 rgb21 rgb25 : IfaceStandard

pub data DebugCommand : Type 0 where
  taprets : DebugCommand

pub data Command (General Invoice : Type 0) : Type 0 where
  general : General → Command General Invoice
  debug : DebugCommand → Command General Invoice
  schemata interfaces utxos : Command General Invoice
  -- the standard
  contracts : Option IfaceStandard → Command General Invoice
  -- armored, file
  import : Bool → String → Command General Invoice
  -- armored, contract, file
  export : Bool → ℕ → Option String → Command General Invoice
  -- file
  armor : String → Command General Invoice
  -- all, contract id, interface
  state : Bool → ℕ → String → Command General Invoice
  -- contract id, interface
  history_fungible : ℕ → String → Command General Invoice
  -- schema, issuer, contract
  issue : ℕ → String → String → Command General Invoice
  -- address based, contract id, interface, value
  invoice : Bool → ℕ → String → ℕ → Command General Invoice
  -- v2, sats, invoice, fee, PSBT file
  prepare : Bool → ℕ → Invoice → ℕ → Option String → Command General Invoice
  -- invoice, PSBT file, consignment file
  consign : Invoice → String → String → Command General Invoice
  -- v2, sats, invoice, fee, consignment file, PSBT file
  transfer : Bool → ℕ → Invoice → ℕ → String → Option String → Command General Invoice
  -- file, path, dir
  inspect : String → Option String → Bool → Command General Invoice
  -- contract, source, destination
  reconstruct : Bool → String → Option String → Command General Invoice
  -- root directory
  dump : String → Command General Invoice
  -- file
  validate : String → Command General Invoice
  -- force, file
  accept : Bool → String → Command General Invoice
