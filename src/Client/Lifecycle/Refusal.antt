-- ===== src/Client/Lifecycle/Refusal.antt =====
-- The settings that NewClient accepts.
use courier_go.Base.{
  pos, String, false, Option, none, some, str_eq, lt_int, ◌≡◌, refl, ◌≢◌, ◌⊎◌, ◌↔◌, inl, inr, arith,
  eq_iff,
}
use courier_go.ClientOptions.{ClientOptions, EmitterConfig, second}
use courier_go.Client.Lifecycle.{emitter_too_fast, is_none, refusal}

pub str_ne : (s t : String) → s ≢ t → str_eq s t ≡ false
str_ne s t h = ground (arith, eq_iff s t)

-- The settings that NewClient takes.
pub record IsAcceptable (o : ClientOptions) : Type 0 where
  pub reachable : (o.broker_address ≢ "") ⊎ (o.resolver ≢ none)
  pub one_mode : (o.pool_enabled ≡ false) ⊎ (o.multi_connection_mode ≡ false)
  pub slow :
      (o.info_emitter_cfg ≡ none)
      ⊎ ((cfg : EmitterConfig) × (o.info_emitter_cfg ≡ some cfg)
          × ((cfg.emitter ≡ none) ⊎ (lt_int cfg.interval (pos second) ≡ false)))

too_fast_cases :
    (i : Option EmitterConfig)
    → emitter_too_fast i ≡ false
    → (i ≡ none)
      ⊎ ((cfg : EmitterConfig) × (i ≡ some cfg)
          × ((cfg.emitter ≡ none) ⊎ (lt_int cfg.interval (pos second) ≡ false)))
unfolding emitter_too_fast
too_fast_cases none h = inl refl
too_fast_cases (some cfg) h = inr (cfg, refl, ground arith)

slow_cases :
    (i : Option EmitterConfig)
    → (i ≡ none)
      ⊎ ((cfg : EmitterConfig) × (i ≡ some cfg)
          × ((cfg.emitter ≡ none) ⊎ (lt_int cfg.interval (pos second) ≡ false)))
    → emitter_too_fast i ≡ false
unfolding emitter_too_fast
slow_cases i (inl e) = rw e
slow_cases i (inr (cfg, e, inl no_emitter)) = rw (e, emitter_too_fast, no_emitter) refl
slow_cases i (inr (cfg, e, inr slow)) = rw e (ground arith)

-- NewClient accepts its settings exactly if it has an address or a resolver, not both of the modes
-- with several connections, and no emitter whose interval is below one second.
pub refusal-eq-none_iff : (o : ClientOptions) → (refusal o ≡ none) ↔ IsAcceptable o
unfolding refusal is_none
refusal-eq-none_iff o = (
  λ h. record {
    reachable = ground (arith, eq_iff o.broker_address "");
    one_mode = ground (arith, eq_iff o.broker_address "");
    slow = too_fast_cases o.info_emitter_cfg (ground arith);
  },
  λ a. ground (
    arith,
    eq_iff o.broker_address "",
    a.reachable,
    a.one_mode,
    slow_cases o.info_emitter_cfg a.slow,
  ),
)
