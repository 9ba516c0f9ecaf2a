-- ===== src/Maker/Client.antt =====
-- pkg/maker/maker.go: Publish and SubmitFrameUpdate; the other methods pass on to the stream.
pub mod Submitted
use takapu_protocol_sdk.Prelude.{
  ℕ, Bool, true, false, not, ◌||◌, ◌==◌, Option, none, some, Result, ok, err, fail_if, wrap, ◌>>=◌,
  ◌>>◌,
}
use takapu_protocol_sdk.Wire.{MarketFrame, AddressText}
use takapu_protocol_sdk.Frame.Types.{Address, FrameSpec}
use takapu_protocol_sdk.Frame.Errors.{FrameError}
use takapu_protocol_sdk.Frame.Signing.{Crypto, Signer, Context, SignedFrame, sign_frame}
use takapu_protocol_sdk.Frame.Prepare.{prepare_signing_payload, build_and_sign}
use takapu_protocol_sdk.Protocol.Client.{Client, Codecs}
use takapu_protocol_sdk.Protocol.Transaction.{TransactOpts, Chain, Sent, update_frame_by_sig}
use takapu_protocol_sdk.Maker.Quote.{MakerError, PublishParams, quote_spec}

pub data ClientError : Type 0 where
  context_nil context_done maker_nil client_required options_incomplete : ClientError
  quote_chain quote_protocol : ClientError
  quoting : MakerError → ClientError
  signing : FrameError → ClientError

-- `ctx.Err()` as it is asked first.
abbrev pub check_alive : Option ℕ → Result ClientError (Unit {0})
check_alive none = ok tt
check_alive (some e) = err context_done

-- The part of `Publish` before the stream: its errors are all those of a frame that is not sent.
-- `ended` is what the context answers first, and `context` what SignFrame meets.
unfoldable pub signed_quote :
    Crypto
    → AddressText
    → Bool
    → Option ℕ
    → Context
    → PublishParams
    → Option Signer
    → Result ClientError MarketFrame
signed_quote crypto text has_context ended context params signer = do
  fail_if (not has_context) context_nil
  check_alive ended
  spec ← wrap quoting (quote_spec params)
  wrap signing (build_and_sign crypto text (some context) spec signer)

-- `Publish`, with the stream's Publish as `send`.
unfoldable pub publish :
    {Answer : Type 0}
    → (ClientError → Answer)
    → (MarketFrame → Answer)
    → Result ClientError MarketFrame
    → Answer
publish not_sent send (err e) = not_sent e
publish not_sent send (ok value) = send value

-- The client of `SubmitFrameUpdate`, which may be nil or of zero value.
abbrev pub check_client : Option Client → Result ClientError Client
check_client none = err client_required
check_client (some client) = do
  fail_if (client.cfg.chain_id == 0 || client.cfg.proxy == 0) client_required
  ok client

abbrev pub has_signer : TransactOpts → Bool
has_signer opts = elim opts.signer [ none ↦ false | some f ↦ true ]

abbrev pub check_options : Option TransactOpts → Result ClientError TransactOpts
check_options none = err options_incomplete
check_options (some opts) = do
  fail_if (not (has_signer opts) || opts.caller == 0) options_incomplete
  ok opts

abbrev pub is_ended : Option Bool → Bool
is_ended none = false
is_ended (some canceled) = canceled

-- The frame that `SubmitFrameUpdate` signs.
unfoldable pub submitted_frame :
    Crypto
    → Bool
    → Option Client
    → Option TransactOpts
    → Context
    → PublishParams
    → Option Signer
    → Result ClientError SignedFrame
submitted_frame crypto has_maker client opts context params signer = do
  fail_if (not has_maker) maker_nil
  c ← check_client client
  o ← check_options opts
  fail_if (is_ended o.context) context_done
  fail_if (not (params.chain_id == c.cfg.chain_id)) quote_chain
  fail_if (not (params.protocol == c.cfg.proxy)) quote_protocol
  spec ← wrap quoting (quote_spec params)
  payload ← wrap signing (prepare_signing_payload crypto spec)
  wrap signing (sign_frame crypto (some context) payload.domain payload.maker payload.frame signer)

-- `SubmitFrameUpdate`, whose last call is UpdateFrameBySig of the given client.
unfoldable pub submit_frame_update :
    Crypto
    → Codecs
    → Chain
    → Bool
    → Client
    → Option TransactOpts
    → Context
    → PublishParams
    → Option Signer
    → Result ClientError Sent
submit_frame_update crypto codecs chain has_maker client opts context params signer = do
  value ← submitted_frame crypto has_maker (some client) opts context params signer
  ok (update_frame_by_sig crypto codecs client chain opts value)
