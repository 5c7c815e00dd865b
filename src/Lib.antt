-- ===== src/Lib.antt =====
-- The reward rail: from transfer logs to a published Merkle root.
--
-- The program is a set of services. The keeper (services/keeper/src) runs the cycle: it checks
-- routes, sweeps fees into purchases, sums up the funding, calls the indexer, publishes the root
-- and keeps a ledger of its steps. The indexer (services/indexer/src) ingests a chain into a
-- store, rolls it back where the chain changed, replays transfer logs into balances, elects the
-- eligible wallets, shares each asset's total among them, merges the shares into running
-- entitlements, builds a Merkle tree over these with a proof for each wallet, checks the result
-- at a gate, and hashes a canonical manifest.
--
-- Base: shared helpers. Base/Text has strings as lists of code units, with the source's order
-- and lower case on ASCII; Base/Int has bigints; Base/Map has Map and Record as association lists
-- in insertion order, and Set as a list; Base/Sort is the stable sort; Base/Decimal prints
-- numbers; Base/Result is a value or the error that the source throws.
--
-- Indexer: services/indexer/src.
--   Events      events.ts and the errors. The node (BlockSource) is a parameter.
--   Blocks      blocks.ts: depth, forks, linked batches.
--   Store       store.ts: MemoryStore; Store/Rollback says what a rollback leaves.
--   Ingest      indexer.ts: ingestRange (two loops: roll_back, push), confirmedCursor, snapshot;
--               Ingest/Canonical and Ingest/Taken say what they leave and take.
--   Snapshot    snapshot.ts: balancesAt, totalSupplyOf, eligible; Snapshot/Allocate: allocate.
--   Cumulative  cumulative.ts: applyCumulative, cumulativeTotal, isMonotone.
--   Merkle      merkle.ts: leafFor, rootOf, proofFor, verify. Viem stands for the functions of viem,
--               and says on which wallets and amounts its encoding throws.
--   Manifest    manifest.ts: canonicalize, buildManifest. JSON.stringify of a string is a
--               parameter.
--   Reconcile   reconcile.ts: the gate.
--   Epoch       indexer.ts: buildEpoch, which composes all of them.
--   BalanceRows balances.ts: validateSupplySum.
--   Tests       the theorems at concrete inputs.
--
-- Keeper: services/keeper/src, the service that runs the payout cycle.
--   Jobs        jobs.ts: the names of the jobs.
--   Config      config.ts: validateConfig.
--   State       state.ts: MemoryStepStore, inputHash.
--   Ledger      ledger.ts: DurableStepStore, as the lines of its file beside its records;
--               Ledger/Recovery compares it with the store in memory under kills.
--   Quotes      quotes.ts: collectQuotes, whose clients are functions of the call's number.
--               Quotes/Lifi has HttpLifiClient; fetch is a parameter.
--   Amounts     BigInt(text), as pipeline.ts, pg-store.ts and quotes.ts read amounts with it.
--   Purchase    purchase.ts: PurchaseMachine over a chain with states of its own, and funding.
--   Pipeline    pipeline.ts: ingestBatch, treeBuild, manifestValidate, toCumulative, cursorOf.
--   Publish     pipeline.ts: publishIfNeeded, over a chain with states of its own.
--   StepStore   the interface StepStore of state.ts with its laws, which StepStore/Laws proves of the
--               stores in memory and on disk.
--   PgStore     pg-store.ts: PostgresStepStore. The statements are data; the database and its
--               client are parameters, whose documented transactions are hypotheses.
--   Steps       steps.ts: the context, outcomes and adapter. Steps/Recorded reads the ledger and
--               has reconcileCursor; Steps/Intake has runIngest, runBasketPurchase, runFunding and
--               runSnapshot; Steps/Release has the steps from runTreeBuild to runClaimRelay. The
--               other children prove: Frame what each step leaves alone, Reconciled, Activated and
--               Crash the recovery, Funded the funding, Sent the roots that are sent.
--   Cycle       keeper.ts: Keeper.runCycle with run, seal and report.
--   System      many cycles of keeper.ts, with kills of the process between its acts and others on
--               the chain, as a step relation with its invariant.
--   Attest      attest.ts, and scopeOf of signer.ts. The signer is a parameter; Attest/Stub has the
--               StubSigner of signer.ts.
--   Monitor     monitor.ts: the tallies and timers of the metrics.
--   Tests       the theorems at concrete inputs.
--
-- Packages: packages/config and packages/sdk.
--   Config      config/src/index.ts: requireEntry, assertAllVerified.
--   Sdk         sdk/src: constants, minimumExpectedOutput, isFixedSupplyAmount, render.
--   Tests       the theorems at concrete inputs.
--
-- Web: apps/web, the static site that previews the claims.
--   Format      app/page.tsx: fmt, and the figures of app/status/page.tsx; Format/Grouped says where
--               the commas stand.
--   Search      trim and includes of the language, with what they find.
--   Manifest    app/lib/manifest.ts: the types; the file is read outside of the model.
--   Lookup      app/claim-lookup.tsx: ClaimLookup, from the query to what the list says.
--   Pages       app/claim/[epoch]/page.tsx: the epochs that have a page, and its figures.
--   ExportCheck scripts/export-check.mjs, over the exported files.
--   Tests       the theorems at concrete inputs.
--
-- Numbers: bigint is Base.Int.ℤ, exact as in the source; block heights, indices and lengths are
-- natural numbers. Asynchronous calls are taken in the order of the code. The loops of rootOf
-- and proofFor run on fuel, the number of leaves; the theorem on proofs shows that it is enough.
--
-- A deviation in basis points is exact, where the source rounds one above 2 ^ 53.
--
-- The steps take the chain's reads as answered; the publication of a root and the relay may
-- fail. What the indexer has stored before it throws within a step is not kept in the model's
-- state. The put of a step's record, which the source neither awaits nor checks, goes through by
-- the next step or is lost, as a field of the keeper says; no theorem but crash-recovers, of a
-- record that was kept, asks that it goes through.
--
-- run_cycle is the cycle whose calls outside of the try block are answered, and
-- run_cycle_or_reject the one where they may reject. encodePacked is taken as answered. The
-- texts that JSON makes of cursors and intents are parameters, and so is the wording of errors.
-- Date.now() is any function of the number of the record.
--
-- Not modelled: the markup and fixed texts of the web pages, the Solidity contracts, the ABIs
-- and the adapter that sends transactions, the scripts.
pub mod Base
pub mod Indexer
pub mod Keeper
pub mod Packages
pub mod Web
