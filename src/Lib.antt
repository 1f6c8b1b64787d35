-- ===== src/Lib.antt =====
-- 0G Flow: flows of agent steps whose receipts are anchored on a chain, folded into one root a run
-- is sealed with, indexed and checked again by anyone. This library models the core of the
-- TypeScript packages of the repository and proves the properties they rely on.
--
-- Parts, and the files that model them:
--
-- - Prelude, Text: lists, tests, results and the stable sort of the language; a string is the list
--   of its UTF-16 units.
-- - Hash (packages/core/src/hash.ts): hex encoding, keccak256 and sha256 in full. The 64 and 32 bit
--   words keep their wrap-around by masks. Both run here and are compared with known digests.
-- - Json (packages/core/src/canonicalize.ts): JSON values, their canonical text, its UTF-8 bytes and
--   hashJson; Unicode normalisation is a parameter, and a finite number is the text that the
--   language prints for it.
-- - Schema (packages/core/src/schema.ts): a value checked against the schema that an agent published;
--   Types says what the types are, Acceptance holds the proof.
-- - Template (packages/core/src/template.ts): references in strings, what they resolve to, and the
--   steps that a value refers to; Independence holds the proof.
-- - Status, Receipt (packages/core/src/receipt.ts): the receipt, its fixed-width encoding and hash.
-- - ChainRoot (packages/core/src/chain-root.ts): the check that step indices are contiguous and the
--   fold of the receipts' hashes into the root of a run. The hash stays the real one in the
--   theorems; where two different runs could share a root, the theorem hands back two different
--   byte lists with one keccak256 digest.
-- - Outcome (packages/core/src/outcome.ts): a step's status decided from what was observed, and
--   what may be reported of a step and of a run, from anchors and a seal.
-- - Linkage (packages/core/src/linkage.ts): the report of how each step's input derives from the
--   outputs that earlier receipts commit to; Soundness holds the proof.
-- - Reputation (packages/core/src/reputation.ts): an agent's record counted from its receipts, and
--   the bar a flow sets. The double arithmetic of a rate is a parameter.
-- - Decode, Market (packages/verify/src/decode.ts): the contracts' events read from a log's topics
--   and data words; the text decoder of the platform is a parameter.
-- - Indexer (packages/indexer/src): Maps is the language's Map, Store the in-memory tables and the
--   calls that change them (memory-store.ts, store.ts), Queries what is read from them, Ingest
--   the reorg search, the ingestion of a range and catching up (ingest.ts). Tables, Rollback,
--   Reorg, CatchUp, History and Runs hold the proofs. The node's answers are a
--   parameter, one view of the chain for each range; catching up runs on fuel, and fuel for
--   each block from its start to the head and one more round is enough.
-- - Flow, Plan (packages/executor/src/plan.ts): the specs of flows, their checks, the waves of their
--   steps, and planFlow with its sub-flows (Plan/Planning); Waves, Dependencies, Rounds, Complete,
--   Checks, Planned, Nesting and Linked hold the proofs. The loop runs on fuel, and a round for each step is
--   enough; a round that takes no step throws.
-- - Adapter (packages/executor/src/adapter.ts): one call of an agent over HTTP with its attempts;
--   the network's answers and JSON.parse are parameters. Attempts holds the proof.
-- - Run (packages/executor/src/execute.ts): Step is one step of a run, Loop the waves, the anchors,
--   the payments and the seal. The chain, the trace store, the registries, the clock and the
--   verification of attestations and signatures are a record of functions, Services. A run
--   nests through the levels that are left to it, as the source bounds it, so no fuel is
--   invented. Steps, Upstream and Anchored hold the lemmas, Sealed the proof. Hiring is
--   the check of a flow's policy, which Services holds as a function; Hired holds its proof.
--
-- How they meet: the outcome of a run folds its receipts with ChainRoot, which hashes what Receipt
-- encodes; the plan and the linkage check read references with Template, and the linkage hashes with
-- Json; the reputation counts receipts by the status the outcome decided; the
-- ingestion decodes logs into rows of the tables.
--
-- Errors are values: each component has a data type with one constructor for each `throw`, with
-- the data the message names. Numbers that the source keeps in `bigint` or `number` are natural
-- numbers; a range check of the source is a test of the model, and no number is rounded.
--
-- Not modelled: the contents of traces, run verification,
-- the contracts (Solidity), the Python SDK, network, file and database access, the command lines
-- and the web explorer.
pub mod Prelude
pub mod Text
pub mod Hash
pub mod Json
pub mod Template
pub mod Schema
pub mod Status
pub mod Receipt
pub mod ChainRoot
pub mod Outcome
pub mod Linkage
pub mod Reputation
pub mod Decode
pub mod Market
pub mod Indexer
pub mod Flow
pub mod Plan
pub mod Adapter
pub mod Run
pub mod Tests
