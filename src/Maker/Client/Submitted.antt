-- ===== src/Maker/Client/Submitted.antt =====
-- The frame that SubmitFrameUpdate of pkg/maker/maker.go sends to the contract.
use takapu_protocol_sdk.Prelude.{
  ℕ, ◌≡◌, refl, ap, ◌∙◌, sym, arith, true, false, not, ◌==◌, Option, some, ok, fail_if, wrap,
  wrap-eq-ok, >>=-eq-ok, fail_if-eq-ok,
}
use mathlib.Core.Path.{subst, ap₂}
use takapu_protocol_sdk.Frame.Types.{FrameSpec}
use takapu_protocol_sdk.Frame.Codec.{encode_compact_frame}
use takapu_protocol_sdk.Frame.Signing.{
  Crypto, Signer, Context, SignedFrame, SigningDomain, sign_frame, verify_signature,
}
use takapu_protocol_sdk.Frame.Signing.Laws.{sign_frame-verifies}
use takapu_protocol_sdk.Frame.Prepare.{prepare_signing_payload}
use takapu_protocol_sdk.Frame.Prepare.Signed.{payload_parts}
use takapu_protocol_sdk.Protocol.Client.{Client}
use takapu_protocol_sdk.Protocol.Transaction.{TransactOpts}
use takapu_protocol_sdk.Maker.Quote.{PublishParams, quote_spec}
use takapu_protocol_sdk.Maker.Quote.Quotable.{spec_parts}
use takapu_protocol_sdk.Maker.Client.{
  context_done, quote_chain, quote_protocol, quoting, signing, check_client, check_options,
  is_ended, submitted_frame,
}

check_client-eq : (client c : Client) → check_client (some client) ≡ ok c → client ≡ c
check_client-eq client c h = ground arith

same_number : (a b : ℕ) → not (a == b) ≡ false → a ≡ b
same_number a b h = ground arith

-- The domain of a client's contract.
abbrev pub domain_at : Client → SigningDomain
domain_at client = record { chain_id = client.cfg.chain_id; protocol = client.cfg.proxy }

spec_domain :
    (params : PublishParams) (spec : FrameSpec)
    → quote_spec params ≡ ok spec
    → (spec.chain_id ≡ params.chain_id)
      × (spec.protocol ≡ params.protocol)
      × (spec.maker ≡ params.maker)
spec_domain params spec h =
    let (b, a, valid, eb, ea, open_book, same) = spec_parts params spec h in
    subst
      (λ (s : FrameSpec).
        (s.chain_id ≡ params.chain_id) × (s.protocol ≡ params.protocol) × (s.maker ≡ params.maker))
      same (refl, refl, refl)

-- The frame that SubmitFrameUpdate sends through a client encodes the specification of the quote, is
-- for the maker of the quote, and its signature verifies for the signer's address in the domain of
-- that client: the chain and the contract that the transaction goes to.
pub submitted_frame-verifies :
    (crypto : Crypto) (client : Client) (opts : Option TransactOpts) (context : Context)
    (params : PublishParams) (signer : Signer) (out : SignedFrame)
    → submitted_frame crypto true (some client) opts context params (some signer) ≡ ok out
    → (spec : FrameSpec) × (quote_spec params ≡ ok spec)
      × (encode_compact_frame spec ≡ ok out.frame)
      × (out.maker ≡ params.maker)
      × (verify_signature crypto (domain_at client) out signer.address ≡ ok tt)
unfolding submitted_frame
submitted_frame-verifies crypto client opts context params signer out h =
    let (c, e2, h2) = >>=-eq-ok (check_client (some client)) _ h in
    let (o, e3, h3) = >>=-eq-ok (check_options opts) _ h2 in
    let (u, e4, h4) = >>=-eq-ok (fail_if (is_ended o.context) context_done) _ h3 in
    let (v, e5, h5) =
      >>=-eq-ok (fail_if (not (params.chain_id == c.cfg.chain_id)) quote_chain) _ h4 in
    let (w, e6, h6) =
      >>=-eq-ok (fail_if (not (params.protocol == c.cfg.proxy)) quote_protocol) _ h5 in
    let (spec, e7, h7) = >>=-eq-ok (wrap quoting (quote_spec params)) _ h6 in
    let (payload, e8, h8) = >>=-eq-ok (wrap signing (prepare_signing_payload crypto spec)) _ h7 in
    let quoted = wrap-eq-ok quoting (quote_spec params) e7 in
    let prepared = wrap-eq-ok signing (prepare_signing_payload crypto spec) e8 in
    let signed =
      wrap-eq-ok signing
        (sign_frame crypto (some context) payload.domain payload.maker payload.frame (some signer))
        h8 in
    let (valid, enc, ed, em) = payload_parts crypto spec payload prepared in
    let (ef, es, nonzero, verified) =
      sign_frame-verifies crypto (some context) payload.domain payload.maker payload.frame signer
        out signed in
    let (sc, sp, sm) = spec_domain params spec quoted in
    let same = check_client-eq client c e2 in
    let chain = same_number params.chain_id c.cfg.chain_id (fail_if-eq-ok _ quote_chain e5) in
    let proxy = same_number params.protocol c.cfg.proxy (fail_if-eq-ok _ quote_protocol e6) in
    let domain : payload.domain ≡ domain_at client =
      ed
      ∙ ap₂ (λ a b. record { chain_id = a; protocol = b })
          (sc ∙ chain ∙ ap (λ (k : Client). k.cfg.chain_id) (sym same))
          (sp ∙ proxy ∙ ap (λ (k : Client). k.cfg.proxy) (sym same)) in
    (
      spec,
      quoted,
      enc ∙ ap ok (sym ef),
      es ∙ em ∙ sm,
      subst (λ d. verify_signature crypto d out signer.address ≡ ok tt) domain verified,
    )
