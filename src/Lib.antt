-- ===== src/Lib.antt =====
-- Verification of the RGB wallet: the crates rgb-runtime (src/) and psrgbt (psbt/src/), and the
-- command line over them (cli/src/).
--
-- The program keeps an RGB wallet: a stock of contracts and a bitcoin wallet. A payment reads an
-- invoice, chooses the outputs whose states it spends, lets the wallet construct a PSBT, embeds the
-- state transitions into it, commits to them in the outputs, and makes a consignment. A resolver
-- asks a server where the witness transactions of a consignment stand in the blockchain. A command
-- loads the stock, and the wallet if it needs it, from their files, and what it changed is written
-- back as they are dropped at its end.
--
-- Base stands for Rust's standard library: Boolean tests on the native numbers, `Result` with a
-- third outcome for a panic, iterator adapters, and the ordered maps and sets as sorted lists. Chain
-- has the ids and layers of transactions.
--   Descriptor   src/descriptor.rs. Keychain is `RgbKeychain`, Tapret is `TapretKey`, Descr is
--                `RgbDescr`; Keychains and Tweaks are the proofs.
--   Store        src/store.rs. Stock is `StoredStock`, Wallet is `StoredWallet`; a method on
--                `&mut self` returns the new value, and `drop` returns the new disk. Sync,
--                Session and Refined are the proofs.
--   Wallet       src/wallet.rs. Filter has the filters of `WalletWrapper` and the methods that
--                src/pay.rs gives a wallet, History has `fungible_history`, and
--                Errors the `WalletError` of src/errors.rs.
--   Psbt         psbt/src/rgb.rs in Key, Consumer, Velocity, Transition, Inputs, Methods and
--                Bundles, over the proprietary maps of a PSBT; psbt/src/lib.rs in Embed and Commit.
--                Push, Sets, Stored, Bundled, EmbedInputs, Embedded, EmbedStored, Anchors and Committed
--                are the proofs.
--   Pay          src/pay.rs and src/errors.rs. `construct_psbt_rgb` is the composition of Inputs
--                (the outputs to spend), Select (the choice for an amount), Arrange (the order of
--                the new outputs) and Construct; `transfer` and `pay` are in Transfer. Covered,
--                Fewest, Insufficient, Change, Names and Unchanged are the proofs.
--   Resolver     src/resolvers/. Any is `AnyResolver`, Esplora and Electrum are the clients. Terminals,
--                Locate and Ends are the proofs.
--   Cli          cli/src/args.rs in Env and Args, the commands of cli/src/command.rs in Command,
--                Stash (the lists and the history), Files (`export`, `armor`, `validate`, `accept`),
--                Import, State, Genesis and Issue (`issue`, `invoice`), Spend (`prepare`,
--                `consign`, `transfer`), Inspect (`inspect`, `reconstruct`) and Dump, `exec` with
--                cli/src/main.rs in Exec. Io has the programs that change the disk and print. Keeps,
--                Reads, ReadState, ReadOnly, Durable, Paid, Loaded, Settled, Connected, Server,
--                Accepted, Imported, Ends, Composed, Composes, Recomposes, Issued, Invoiced, Completes
--                and Code are the proofs; Composed describes what `issue` makes of a YAML.
--   Tests        concrete instances, and each result at a concrete input.
--
-- What other crates do is a record of operations that a module takes as a parameter (the files
-- called Api, Disk and Iface, and records such as `BundleApi`), and what the program relies on is a
-- record of laws beside it. What a method returns by `&mut` is returned with its result, also where
-- it fails. A panic of `expect` or `panic!` is the outcome `panic`.
--
-- Bounds. An amount is a number, and its addition is known below 2 ^ 64 only. Input and output
-- numbers are taken modulo 2 ^ 32, as the casts to `u32` do. The count of announced headers in the
-- electrum resolver runs on fuel, since the server decides when it ends; a fuel above the number of
-- waiting headers is enough. The order in which a hash map of two close methods is read is the
-- parameter `reversed`.
--
-- The command line. The disk is whatever files are kept on; what is printed is a list of lines. A
-- stored stock or a stored wallet is held beside them while a command runs, and dropped at its end
-- also where it failed. Random numbers are drawn from a number that the commands take.
--
-- Not modelled: the parsing of arguments and the logger, which are other crates, with the texts of
-- the help; the text form of what is printed, which is a parameter for each type; the re-exports of
-- src/lib.rs and src/resolvers/mod.rs; serialisation and network clients, which are other crates.
pub mod Base
pub mod Descriptor
pub mod Chain
pub mod Resolver
pub mod Store
pub mod Wallet
pub mod Psbt
pub mod Pay
pub mod Cli
pub mod Tests
