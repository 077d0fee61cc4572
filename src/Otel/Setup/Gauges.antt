-- ===== src/Otel/Setup/Gauges.antt =====
-- setupCourierMetrics of otelcourier/metric.go, and the settings that a Client shows to it.
use courier_go.Base.{
  ℕ, ℤ, String, Option, none, some, List, [], ◌∷◌, ◌++◌, ◌≡◌, refl, arith, All, Option-cases, inl,
  inr,
}
use courier_go.Errors.{Error}
use courier_go.Libs.{Libs}
use courier_go.Client.{Client}
use courier_go.Otel.{Attribute, service_name, version, Otel}
use courier_go.Otel.Setup.{Meter}

-- CourierConfig
pub record CourierConfig : Type 0 where
  pub connect_timeout : ℤ
  pub write_timeout : ℤ
  pub keep_alive : ℤ
  pub ack_timeout : ℤ
  pub pool_size : ℕ

-- ConnectTimeout, WriteTimeout, KeepAlive, AckTimeout and PoolSize of a Client
unfoldable pub courier_config : ⦃libs : Libs⦄ → Client → CourierConfig
courier_config c = record {
  connect_timeout = c.options.connect_timeout;
  write_timeout = c.options.write_timeout;
  keep_alive = c.options.keep_alive;
  ack_timeout = c.options.ack_timeout;
  pool_size = c.options.pool_size;
}

-- A float64: the Seconds() of a duration, or a number.
pub data GaugeValue : Type 0 where
  seconds : ℤ → GaugeValue
  number : ℕ → GaugeValue

-- A gauge and what its callback observes; an empty unit is `none`.
pub record Gauge : Type 0 where
  pub name : String
  pub unit : Option String
  pub value : GaugeValue
  pub attributes : List Attribute

-- configMetrics
unfoldable pub config_metrics : Otel → String → CourierConfig → List Gauge
config_metrics t vsn cfg =
    let base = service_name t.service ∷ t.attributes in
    record {
      name = "courier.client.connection_timeout";
      unit = some "s";
      value = seconds cfg.connect_timeout;
      attributes = base;
    }
    ∷ record {
      name = "courier.client.write_timeout";
      unit = some "s";
      value = seconds cfg.write_timeout;
      attributes = base;
    }
    ∷ record {
      name = "courier.client.keep_alive";
      unit = some "s";
      value = seconds cfg.keep_alive;
      attributes = base;
    }
    ∷ record {
      name = "courier.client.ack_timeout";
      unit = some "s";
      value = seconds cfg.ack_timeout;
      attributes = base;
    }
    ∷ record {
      name = "courier.client.library_version";
      unit = none;
      value = number 1;
      attributes = base ++ version vsn ∷ [];
    }
    ∷ record {
      name = "courier.client.pool_size";
      unit = none;
      value = number cfg.pool_size;
      attributes = base;
    }
    ∷ []

-- What registering gauges leaves: those whose callback is registered, and the error of a panic.
pub record Registered : Type 0 where
  pub gauges : List Gauge
  pub panic : Option Error

-- The error of one round of the loop.
unfoldable pub gauge_error : Meter → Gauge → Option Error
gauge_error m g = elim (m.gauge g.name) [ some e ↦ some e | none ↦ m.register_callback g.name ]

-- The loop of setupCourierMetrics.
unfoldable pub register_gauges : Meter → List Gauge → Registered
unfolding gauge_error
register_gauges m [] = record { gauges = []; panic = none }
register_gauges m (g ∷ gs) =
    let rest = register_gauges m gs in
    elim (gauge_error m g) [
      | some e ↦ record { gauges = []; panic = some e }
      | none ↦ record rest { gauges = g ∷ rest.gauges }
    ]

-- setupCourierMetrics
unfoldable pub setup_courier_metrics : Meter → Otel → String → CourierConfig → Registered
unfolding config_metrics register_gauges
setup_courier_metrics m t vsn cfg = register_gauges m (config_metrics t vsn cfg)

-- The error at the first of some gauges.
abbrev pub first_error : Meter → List Gauge → Option Error
first_error m [] = none
first_error m (g ∷ gs) = gauge_error m g

-- What a loop over gauges has registered, and what it has not reached.
pub record StopsAtRefusal (m : Meter) (gs : List Gauge) (r : Registered) : Type 0 where
  pub rest : List Gauge
  pub split : gs ≡ r.gauges ++ rest
  pub taken : All (λ g. gauge_error m g ≡ none) r.gauges
  pub panic : r.panic ≡ first_error m rest
  pub finished : (r.panic ≡ none) → rest ≡ []

register_gauges-StopsAtRefusal :
    (m : Meter) (gs : List Gauge) → StopsAtRefusal m gs (register_gauges m gs)
unfolding register_gauges
register_gauges-StopsAtRefusal m [] = record {
  rest = [];
  split = refl;
  taken = tt;
  panic = refl;
  finished = λ h. refl;
}
register_gauges-StopsAtRefusal m (g ∷ gs) =
    let h = register_gauges-StopsAtRefusal m gs in
    elim (Option-cases (gauge_error m g)) [
      | inl e ↦ record {
        rest = h.rest;
        split = ground (arith, e, h.split);
        taken = ground (arith, e, h.taken);
        panic = ground (arith, e, h.panic);
        finished = λ k. h.finished (ground (arith, e, k));
      }
      | inr (x, e) ↦ record {
        rest = g ∷ gs;
        split = ground (arith, e);
        taken = rw (e, register_gauges) tt;
        panic = ground (arith, e);
        finished = λ k. absurd (ground (arith, e, k));
      }
    ]
