-- ===== src/Lib.antt =====
-- crypto55: an Ethereum-style chain in Go, with a sequencer in the manner of a rollup.
--
-- The program executes blocks of transactions (pkg/c2block) over a state trie (pkg/statetrie).
-- Code runs in the stepper of pkg/c2evm, one instruction at a time, on the 256-bit arithmetic of
-- pkg/evm256 and the hash of pkg/c2crypto. The sequencer of pkg/c2seq chooses the transactions: its
-- delayed inbox brings messages that become retryable tickets, its express lane and its mempool
-- bring the rest. This library models the arithmetic, the hash, the stepper, and from the
-- sequencer the checked gas arithmetic, the tickets, the express lane, the delayed inbox and the
-- changes of the mempool one transaction at a time; from the execution the decoding of transactions,
-- the trie of receipts, the state's journal, and the processing of blocks with the calls it runs.
--
-- Base          shared names: Boolean tests, lists over the native numbers, 64-bit words with their
--               wrap-around written out and the functions of math/bits, lemmas on bits and powers
-- Evm256        pkg/evm256. Uint256 is uint256.go: four limbs, and `value`, the number they stand
--               for. Arith and Division are arith.go, with `udivrem` by its loops; Bitwise is
--               bitwise.go and `SignExtend256`. Order, Bytes, Sum, Product, Power, Limb, Shift,
--               RightShift, Signed, Range and Results relate them to numbers and bound their results
-- Keccak        pkg/c2crypto/keccak.go: the permutation, the sponge, Keccak256 and Keccak512
-- Evm           pkg/c2evm. Frame is frame.go; Gas, Stack, Memory, Jump, Opcode and Step are
--               stepper.go: `op_gas` is the table opGas, `charge_mem` chargeMem, `jumpdest_ok`
--               jumpdestOK, `step_one` StepOne, and `exec` the switch in it. Valid is the
--               well-formedness of frames, Progress what a step and the loop of steps do to it,
--               Expansion the price of memory, Jump/Boundary where instructions start
-- Seq           pkg/c2seq. Gas and Retryable are retryable.go: `quote_retryable`, `create`,
--               `auto_redeem`, `manual_redeem`; Queues is timeboost.go, and of sequencer.go the
--               DelayedInbox; Mempool is AddTx and RemoveTx of mempool.go,
--               Batch the loop of `ProduceBlock` that chooses transactions. Types has the errors, and
--               the Transaction of pkg/c2block/types.go
-- Rlp           Encode is the RLP of pkg/c2crypto/mpt.go and the encoders of
--               pkg/c2block/tx_decode.go, Decode its `rlpDecode` with what reads numbers and
--               addresses. Numbers, Head, Fields, RoundTrip, Fuel and Lengths say what is read of
--               what is written, and what of other bytes
-- Tx            pkg/c2block/tx_decode.go. Parse is `parseTxList` and the four parsers, Signing
--               `signingHash`, `recoverSender` and `DecodeTransaction`; Values, Fields and
--               RoundTrip are about typed transactions
-- Trie          the receipts of pkg/c2block/block_processor.go. Node is `mptInsert`, Encode the node
--               encodings of pkg/c2crypto/mpt.go with `mptEncode`, Receipts `encodeReceipt`,
--               `receiptsRoot` and the bloom filter; Prefix, Split, Lookup, Entries, Shape, Same,
--               Unique, Keys, Content, Compact, Settled and Oversize are about them. Keys are lists
--               of nibbles, the only keys that the program inserts
-- State         pkg/statetrie/state_trie.go. Store has the accounts, the storage and the journal,
--               with a definition for each method; Undo, Revisions, Snapshots and Held are
--               about the journal, Balance about the balances
-- Block         pkg/c2block/block_processor.go and `run` of pkg/c2block/call_context.go. Fees is
--               `intrinsicGas`, `effectiveFees` and the settlement of the gas, Types the types around
--               a transaction, Script the programs of calls on the state and what they do to it, Call
--               `run` with what it calls and `cleanTouchedEmptyAccounts`, Process
--               `ProcessTransaction` and `ProcessBlock`; Settle, Effects, Frames and Restore are
--               about them
--
-- A frame's arrays are functions of the index, and every access checks the index as Go does: a
-- panic of Go is the value `none`. The state that SLOAD and SSTORE reach is an interface,
-- `StateAccessor`, of which only this is asked: what is read is a 256-bit word. A Go map is a
-- function of the key, a method that locks a mutex is one step, and an error is a value. Where Go
-- ranges over a map, the order is an argument. The decoder of RLP computes with the ints of Go, and
-- a slice out of bounds is the outcome `panic`; so is a write past one of the arrays of 2048 bytes
-- that the encoder of the receipt trie has. The recovery of a public key and the state root are
-- parameters. `execFrame` is a parameter too, of which nothing is asked: it is any program that ends,
-- made of calls of the state's methods and of nested calls of `run`, whose next call may depend on
-- what it has read, and which may panic. A call of `run` has an argument that says how many more may
-- be nested in it, 1024 for a transaction's own: it is `maxCallDepth` less the depth.
--
-- Fuel: `Exp256` has 256 rounds, and each halves an exponent below 2 ^ 256; the scan of jumpdestOK
-- has as many rounds as there are bytes before the destination, and each passes one byte at least;
-- a sponge has as many rounds as there are bytes; `run`, the loop around StepOne, takes its rounds
-- as an argument, and one more than there is gas is enough; `rlpDecode` takes at most two rounds
-- for each byte.
--
-- Not modelled: the batches of the mempool, the batch poster and the rest of the
-- production of blocks in pkg/c2seq; of pkg/c2block `execFrame` with the instructions that reach
-- other accounts, and the precompiles; the roots and proofs of pkg/statetrie; pkg/onestep; the curve and the decompressor of pkg/c2crypto. The
-- servers of pkg/c2rpc and pkg/c2web and the command are input and output.

pub mod Base
pub mod Block
pub mod Evm
pub mod Evm256
pub mod Keccak
pub mod Rlp
pub mod Seq
pub mod State
pub mod Trie
pub mod Tx
