-- ===== src/Consul/Created.antt =====
-- The resolver that NewResolver returns, from its creation on.
use courier_go.Base.{pos, if◌then◌else◌, ◌≡◌, ◌≢◌}
use courier_go.Consul.{Config, Resolver, is_zero}
use courier_go.Consul.Steps.Invariant.{IsFresh}

-- How a resolver starts that has been made for some settings.
pub record StartsFrom (c : Config) (r : Resolver) : Type 0 where
  pub keyed : c.kv_key ≢ ""
  pub addressed : c.consul_address ≢ ""
  pub same_key : r.kv_key ≡ c.kv_key
  pub same_filter : r.healthy_only ≡ c.healthy_only
  pub debounce :
      r.debounce_duration
      ≡ (if is_zero c.debounce_duration then pos 5_000_000_000 else c.debounce_duration)
  pub fresh : IsFresh r
