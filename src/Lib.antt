-- ===== src/Lib.antt =====
-- Takapu protocol SDK.
--
-- The SDK connects makers and routers to a stream of compact, signed order books. pkg/frame packs a
-- book into three 32-byte words and signs it; pkg/maker turns a maker's decimals into such a book;
-- pkg/router computes a local quote from a frame and builds a swap from it; pkg/protocol reads the
-- contract, encodes and sends its transactions and reads their receipts; internal/ keeps the
-- streaming clients, which makers and routers share: sessions, reconnection, subscriptions, envelopes
-- and the queue of frames.
--
-- Which file models which part:
--   Prelude      numbers, Boolean tests, lists, and Go's results: `(value, error)` is a `Result`, an
--                early return is `fail_if`, `%w` is `wrap`, a `*big.Int` is an optional integer.
--   Decimal      pkg/frame/decimal.go (decimal) and pkg/router/quote.go (quoteDecimal).
--   Frame        pkg/frame: Types is frame.go, Codec is codec.go, whose words are lists of bytes;
--                Signing is signing.go; Prepare is prepare.go and humanLevels of decimal.go.
--   Protocol     pkg/protocol, one module for each file; Errors is the error type and what the ABI
--                codec packs, and Client holds the parameters that stand for go-ethereum.
--   Wire         the fields of pkg/types/marketstream.pb.go.
--   Router       Quote is pkg/router/quote.go: one function for each Go function, and one for each
--                branch of the loop of matchQuote. Swap is pkg/router/swap.go.
--   Maker        Quote is pkg/maker/quote.go: decimals to ticks and lots, and the specification of a
--                book. Client is Publish and SubmitFrameUpdate of pkg/maker/maker.go.
--   Listing      pkg/listing: Types is its data, Sizes is pair_params.go, Pair is decode.go and pairs.go.
--   Stream       internal/: Types is the state that `client.mu` protects; Client is client.go and the
--                sessions of connection.go; Subscription is subscription.go and quote.go; Envelope is
--                wire.go; Publish is write of connection.go, sendHeartbeat of wire.go and Publish of
--                maker.go; Reconnect is reconnect.go and the errors of dial; Config is config.go; Sound is the invariant;
--                Steps has one constructor for each section under the lock, so that a sequence of
--                steps is any interleaving of the goroutines.
--
-- How they interact: quoteSpec of pkg/maker makes the specification that pkg/frame encodes and signs;
-- Prepare prints prices and amounts with Decimal, and the quote of pkg/router reads them with
-- quoteDecimal; the stream passes frames through unread and looks at their routing key only; a swap of
-- pkg/router carries the words and the signature of a frame into the calldata of pkg/protocol; handle
-- of wire.go runs the sections that Steps lists, and its errors are what run decides on.
--
-- Numbers and bounds: uintN fields are natural numbers whose ranges stand with the theorems, as
-- `InRange` of Frame.Codec.HeaderWord does. The generation and the subscription revision of the stream,
-- which are uint64 in Go and only ever incremented, do not wrap here. Every loop is a structural recursion: DecodeLevels runs
-- its five rounds (`max_levels`), the others run over their lists, and the printing of digits has the
-- number itself as fuel, which is more than its digits. nestedRevertBytes recurses on a graph that may
-- be cyclic, with its own budget of 32 as the fuel for its depth. The loops that wait, WaitReceipt and
-- the retries of run, run over the list of what they meet.
--
-- Parameters: the address functions of go-ethereum (`AddressText`), its hash and curve (`Crypto`),
-- its ABI codec, RPC client and transactor (`Abi`, `RevertCodec`, `SwapEventAbi`, `Rpc`, `Chain`),
-- signing callbacks, the protobuf codec with its reflection (`Codec`, `Message`) and encoding/json
-- (`Json`), which are not in the repository. A session pointer is a number, and the state keeps what each one points to; what
-- other goroutines do while write waits for its gate, during a network write, and between the sections
-- of run is a function of the state (`WriteRun`, `Gaps`).
--
-- Not modelled: the network itself, timers, statistics and the identity of a session, whose values no
-- modelled decision reads; the construction of outbound envelopes, of which the size, the reflection
-- and the bytes are parameters; the HTTP transport of the listing client and its list of chains;
-- pkg/router/router.go and the methods of pkg/maker/maker.go that pass on to internal/; the generated codec; the examples.
pub mod Prelude
pub mod Decimal
pub mod Frame
pub mod Protocol
pub mod Wire
pub mod Router
pub mod Stream
pub mod Maker
pub mod Listing
