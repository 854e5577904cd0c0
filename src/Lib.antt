-- ===== src/Lib.antt =====
-- emvault-elements: confidential multisig wallets of a federation on Liquid and Elements.
--
-- The program and the files that model it (paths are from the repository's root):
--   * src/sync/scan.rs, src/sync/mod.rs, src/sync/fakes.rs: Sync. The engine walks the node's
--     chain, stores each block, attributes outputs to wallets by their scripts and marks
--     spends. Sync/Types has the records and the traits (a trait is a record of actions over a
--     world), Sync/Scan the transactions of one block, Sync/Engine `sync` itself, Sync/Fakes
--     the in-memory stores and the scripted chain. Sync/Ledger says what a chain means for one
--     outpoint, without the engine; Sync/Agreement, Sync/Synced, Sync/Ancestor, Sync/WalkBack
--     (a loop as it is written), Sync/Cursor, Sync/Rollback, Sync/Restart, Sync/Refinement and
--     Sync/Behind relate the two, and Sync/Balance says what a wallet is told that it can
--     spend. Sync/Wired is about the engines that registration makes, Sync/Indexed about what
--     registration writes, Sync/History about stores over time, Sync/Redeemable about the
--     addresses behind what a wallet is told that it can spend (the index in
--     Sync/Redeemable/Backed), Sync/Resumed about passes that fail and the pass after them (its
--     children from Within, one outpoint, to Recovery, any number of passes), Sync/Interrupted
--     about a pass that fails (what single calls do to the stores in Sync/Interrupted/Calls).
--   * src/wollet.rs: Wollet, the client-side wallet that the engine asks for scripts and
--     unblinding, with Wollet/Watched on the scripts that it lists and Wollet/Restored on a
--     wollet from a handle (Wollet/Paid on what is known of a listed script).
--   * src/confidential.rs: Confidential, with Confidential/Gate on the outputs that it lets
--     through.
--   * src/pset.rs: Pset, with Pset/Finalize (the P2WSH finalizer; its witnesses in
--     Pset/Finalize/Witness), Pset/Coordinator (the signing coordinator; the signers that it
--     counts in Pset/Coordinator/Quorum, the signatures that it merges in
--     Pset/Coordinator/Merge, signers that take turns in Pset/Coordinator/Live) and
--     Pset/Secrets (the secrets of the inputs), Pset/Stages (what the newtypes promise),
--     Pset/Finalized (the final transaction in hexadecimal). src/signer.rs:
--     Pset.Coordinator.ElementsSigner.
--   * src/spend.rs: Spend, with Spend/Prepare and Spend/Enrich on the inputs of a spend (where
--     the descriptors stand in Spend/Places, and the descriptors by their outpoints in
--     Spend/Sources), Spend/Finished on the PSET that they end in, Spend/Built on a whole spend
--     and a whole sweep, Spend/Migration on the cache of a migration, Spend/Migrated on a whole
--     one, and Spend/Proved on the proofs of what they return.
--   * src/descriptor.rs: Descriptor, with Descriptor/Hex and Descriptor/Order (what a builder
--     collects; its map in Descriptor/Order/Ascending), and with Descriptor/Plain and
--     Descriptor/Multipath on the multipath text.
--   * src/federated_wallet.rs: FederatedWallet, over Federation, with FederatedWallet/Versions
--     on the versions of a wallet and FederatedWallet/Signers on their signers. src/network.rs:
--     Network. src/error.rs: Error.
--   * src/rpc.rs: Rpc, the records; Rpc/Wallets and Rpc/Funding, the calls; Rpc/Ensure on
--     `ensure_wallet_loaded` and Rpc/Drain on a drain.
--   * src/testkit.rs: Testkit, the software signer, with Testkit/Touched on what it may change
--     (as a relation in Testkit/Touched/Relation), Testkit/Written and Testkit/Signing on what
--     it writes, Testkit/Team on signers that sign for a coordinator in turn, Testkit/Attested
--     and Testkit/Sealed on who made the signatures of a PSET, and Testkit/Witnessed on the
--     final witnesses.
--   * Prelude: lists, their members, relations between lists (Pairwise), tests, results,
--     fallible state (Exec), signed numbers (Int) and maps. Elements: the values of the
--     third-party crates. Tests: runs, and the theorems at concrete inputs.
--
-- Third-party code is not modelled. What its methods return is a field of a record or a
-- parameter (try_unblind, address, from_slice, instructions, TxBuilder, blind_last, extract_tx,
-- from_str, sighash_msg, derive_priv, the JSON-RPC transport, serde's Value and decoders), so a
-- theorem holds whatever they return, unless it names a hypothesis. Floats are a type of which
-- nothing is known.
--
-- Representation. Hashes, keys, identifiers and fingerprints are numbers; texts and scripts are
-- lists of codes and bytes; a hash map is an association list with one entry for a key, and a
-- `collect` into a set drops repeats; the arithmetic on u32 and usize in the scan wraps (`% 2 ^
-- 32` and `% 2 ^ 64`, a release build). Loops over a list or a range are structural recursion,
-- so no fuel is needed: `scan_blocks` counts the heights left and `find_common_ancestor` counts
-- down. An index out of bounds, an `expect` and a failed conversion give the outcome `panic`.
--
-- Not modelled: src/lib.rs (re-exports), formatting for Debug, the locks of the in-memory
-- stores (one thread uses them), the constant answers of the software signer (its type,
-- capabilities and health), and the accessors of the newtypes.
pub mod Confidential
pub mod Descriptor
pub mod Elements
pub mod Error
pub mod FederatedWallet
pub mod Federation
pub mod Network
pub mod Prelude
pub mod Pset
pub mod Rpc
pub mod Spend
pub mod Sync
pub mod Testkit
pub mod Tests
pub mod Wollet
