-- ===== src/ClientOptions/Pool.antt =====
-- WithPoolSize: the pool mode is on exactly for a size of two or more.
use courier_go.Base.{◌≡◌, refl, ltb, pos, negsuc, List, [], ◌∷◌, arith}
use courier_go.ClientOptions.{ClientOptions}
use courier_go.ClientOptions.Apply.{
  ClientOption, apply_client, apply_client_options, default_client_options,
}

abbrev PoolAgrees : ClientOptions → Type 0
PoolAgrees o = o.pool_enabled ≡ ltb 1 o.pool_size

apply_client-PoolAgrees :
    (opt : ClientOption) (o : ClientOptions) → PoolAgrees o → PoolAgrees (apply_client opt o)
unfolding apply_client
apply_client-PoolAgrees (ClientOption.with_pool_size (pos n)) o h = ground arith
apply_client-PoolAgrees (ClientOption.with_pool_size (negsuc n)) o h = h
apply_client-PoolAgrees _ o h = h

apply_client_options-PoolAgrees :
    (opts : List ClientOption) (o : ClientOptions)
    → PoolAgrees o
    → PoolAgrees (apply_client_options opts o)
unfolding apply_client_options
apply_client_options-PoolAgrees [] o h = h
apply_client_options-PoolAgrees (opt ∷ opts) o h =
    apply_client_options-PoolAgrees opts (apply_client opt o) (apply_client-PoolAgrees opt o h)

-- Whatever options a client is given, the pool is enabled exactly when the pool size that they
-- leave is two or more.
pub pool_enabled-apply_client_options :
    (opts : List ClientOption)
    → (apply_client_options opts default_client_options).pool_enabled
      ≡ ltb 1 (apply_client_options opts default_client_options).pool_size
unfolding default_client_options
pool_enabled-apply_client_options opts =
    apply_client_options-PoolAgrees opts default_client_options refl
