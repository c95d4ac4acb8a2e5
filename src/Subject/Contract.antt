-- ===== src/Subject/Contract.antt =====
-- checks/contract.ts: `detectProxy` and `inspectContract`. The signals that
-- checks/static-analysis.ts finds in a source decide nothing, and are left out of the report.
use g_sentinel.Base.{ℕ, String, not, Option, none, some, or_else, decimal}
use g_sentinel.Drift.{is_contract}
use g_sentinel.Subject.Chain.{
  wrong_kind, block_mismatch, Block, Adapter, Tools, Chain, ◌>>=◌, ◌>>◌, pure, throw_if,
}
use g_sentinel.Subject.Classify.{ClassifiedSubject, assert_expected_source_block}
use g_sentinel.Subject.Account.{is_bound}
use g_sentinel.Subject.Source.{
  VerifiedSourceResolver, ResolvedVerifiedSource, resolve_verified_source,
}
use g_sentinel.Subject.Proxy.{
  Proxy, eip1167_minimal, BoundProxyMetadata, MetadataResolver, resolve_bound_proxy_metadata,
  implementation_of, implementation_proxy, beacon_proxy, minimal_proxy_target,
}

-- `ContractCheckOptions`
pub record ContractCheckOptions : Type 0 where
  pub source_block : Block
  pub source_resolver : Option VerifiedSourceResolver
  pub proxy_metadata_resolver : Option MetadataResolver

-- `ContractCheckReport`; its status is PASS, and it has no deterministic findings.
pub record ContractCheckReport : Type 0 where
  pub source_block_number : String
  pub source_block_hash : String
  pub runtime_code_hash : String
  pub proxy_candidate : Option Proxy
  pub proxy : Option Proxy
  pub bound_proxy_metadata : Option BoundProxyMetadata
  pub resolved_source : Option ResolvedVerifiedSource

pub record ProxyObservation : Type 0 where
  pub proxy_candidate : Option Proxy
  pub confirmed_proxy : Option Proxy

module _ (tools : Tools) (adapter : Adapter) (subject : ClassifiedSubject) where
  module _ (block_tag : ℕ) where
    abbrev candidate_or_beacon : Option Proxy → Chain ProxyObservation
    candidate_or_beacon (some implementation) =
        pure (record { proxy_candidate = some implementation; confirmed_proxy = none })
    candidate_or_beacon none = do
      beacon ← beacon_proxy tools adapter subject.address block_tag
      pure (record { proxy_candidate = beacon; confirmed_proxy = none })

    abbrev minimal_or_candidate : Option String → Chain ProxyObservation
    minimal_or_candidate (some address) = do
      confirmed ←
          implementation_of tools adapter subject.address block_tag eip1167_minimal (some address)
      pure (record { proxy_candidate = none; confirmed_proxy = confirmed })
    minimal_or_candidate none = do
      implementation ← implementation_proxy tools adapter subject.address block_tag
      candidate_or_beacon implementation

    -- `detectProxy`
    unfoldable pub detect_proxy : Chain ProxyObservation
    detect_proxy = do
      minimal ← minimal_proxy_target tools subject.runtime_code
      minimal_or_candidate minimal

  -- The metadata of a candidate, where there is a resolver.
  abbrev bind_candidate :
      Option MetadataResolver → Option Proxy → Block → Chain (Option BoundProxyMetadata)
  bind_candidate none candidate source_block = pure none
  bind_candidate (some resolver) none source_block = pure none
  bind_candidate (some resolver) (some candidate) source_block = do
    bound ←
        resolve_bound_proxy_metadata tools resolver subject.address subject.runtime_code_hash
          candidate source_block
    pure (some bound)

  -- A proxy that is confirmed, or a candidate with metadata.
  abbrev pub corroborated : ProxyObservation → Option BoundProxyMetadata → Option Proxy
  corroborated observation none = observation.confirmed_proxy
  corroborated observation (some bound) =
      or_else observation.confirmed_proxy observation.proxy_candidate

  -- The source of the implementation of a proxy, or of the subject.
  abbrev resolve_source :
      Option VerifiedSourceResolver → Option Proxy → Block → Chain (Option ResolvedVerifiedSource)
  resolve_source none proxy source_block = pure none
  resolve_source (some resolver) none source_block = do
    resolved ←
        resolve_verified_source tools resolver subject.address subject.runtime_code_hash
          source_block
    pure (some resolved)
  resolve_source (some resolver) (some proxy) source_block = do
    resolved ←
        resolve_verified_source tools resolver proxy.implementation_address
          proxy.implementation_code_hash source_block
    pure (some resolved)

  -- `inspectContract`
  unfoldable pub inspect_contract : ContractCheckOptions → Chain ContractCheckReport
  inspect_contract options = do
    throw_if (not (is_contract subject.kind)) wrong_kind
    source_block ← assert_expected_source_block adapter options.source_block
    throw_if (not (is_bound subject source_block)) block_mismatch
    observation ← detect_proxy source_block.number
    bound ← bind_candidate options.proxy_metadata_resolver observation.proxy_candidate source_block
    resolved ← resolve_source options.source_resolver (corroborated observation bound) source_block
    again ← assert_expected_source_block adapter source_block
    pure (record {
      source_block_number = decimal source_block.number;
      source_block_hash = source_block.hash;
      runtime_code_hash = subject.runtime_code_hash;
      proxy_candidate = observation.proxy_candidate;
      proxy = corroborated observation bound;
      bound_proxy_metadata = bound;
      resolved_source = resolved;
    })
