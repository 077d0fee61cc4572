-- ===== src/Client/Lifecycle/New.antt =====
-- The client that NewClient makes.
use courier_go.Base.{
  ℕ, zero, suc, ◌+◌, ◌≤◌, ◌<◌, String, true, false, none, some, List, [], ◌∷◌, ◌++◌, ◌==◌, lt→ltb,
  subst, if_true, if_false, concat, decimal, insert, length, ◌≡◌, refl, ap, sym, ◌∙◌, ◌≢◌, inl, inr,
  arith, append-nil, append_assoc, Option-cases,
}
use courier_go.ClientOptions.{ClientOptions}
use courier_go.ClientOptions.Apply.{ClientOption, apply_client_options, default_client_options}
use courier_go.ClientOptions.Pool.{pool_enabled-apply_client_options}
use courier_go.Libs.{Libs}
use courier_go.Paho.{MqttClient, Broker}
use courier_go.Paho.Setup.{Host, to_client_options}
use courier_go.Client.{Client}
use courier_go.Client.Exec.{is_uninitialized}
use courier_go.Client.Exec.Laws.{IsMulti}
use courier_go.Client.Lifecycle.Refusal.{str_ne, refusal-eq-none_iff}
use courier_go.Client.Lifecycle.{
  refusal, empty_client, add_to_pool, pool_from, initialize_connection_pool, initialize, created,
  new_client,
}

-- The settings that NewClient works with.
abbrev pub configured : List ClientOption → ClientOptions
configured opts = apply_client_options opts default_client_options

module _ ⦃libs : Libs⦄ where
  -- The connections of a pool: `rounds` of them, from the suffix "-i" on.
  abbrev pub pool_members : Host → Broker → ClientOptions → ℕ → ℕ → List MqttClient
  pool_members host b o zero i = []
  pool_members host b o (suc rounds) i =
      b.new_client (to_client_options host o (concat "-" (decimal i)))
      ∷ pool_members host b o rounds (i + 1)

  length-pool_members :
      (host : Host) (b : Broker) (o : ClientOptions) (rounds i : ℕ)
      → length (pool_members host b o rounds i) ≡ rounds
  length-pool_members host b o zero i = refl
  length-pool_members host b o (suc rounds) i =
      omega (arith, length-pool_members host b o rounds (i + 1))

  -- What the rounds of the pool leave.
  record Pooled (host : Host) (b : Broker) (c d : Client) (rounds i : ℕ) : Type 0 where
    options : d.options ≡ c.options
    counter : d.rr_counter ≡ c.rr_counter
    ordered : d.ordered_clients ≡ c.ordered_clients ++ pool_members host b c.options rounds i

  pool_from-Pooled :
      (host : Host) (b : Broker) (c : Client) (rounds i : ℕ)
      → Pooled host b c (pool_from host b rounds i c) rounds i
  unfolding pool_from
  pool_from-Pooled host b c zero i = record {
    options = refl;
    counter = refl;
    ordered = sym (append-nil _);
  }
  pool_from-Pooled host b c (suc rounds) i =
      let h = pool_from-Pooled host b (add_to_pool host b i c) rounds (i + 1) in
      record {
        options = h.options;
        counter = h.counter;
        ordered = h.ordered ∙ append_assoc c.ordered_clients _ _;
      }

  insert_some {ℓ} :
      {V : Type ℓ} (k : String) (v : V) (m : List (String × V))
      → (length (insert k v m) == 0) ≡ false
  insert_some k v [] = refl
  insert_some k v ((j, w) ∷ m) = ground arith

  add_to_pool-ready :
      (host : Host) (b : Broker) (i : ℕ) (c : Client)
      → is_uninitialized (add_to_pool host b i c) ≡ false
  unfolding add_to_pool
  add_to_pool-ready host b i c = elim (Option-cases c.mqtt_client) [
    | inl e ↦ rw (e, is_uninitialized) (insert_some _ _ c.mqtt_clients)
    | inr (m, e) ↦ rw (e, is_uninitialized) refl
  ]

  pool_from-ready :
      (host : Host) (b : Broker) (c : Client) (rounds i : ℕ)
      → is_uninitialized c ≡ false
      → is_uninitialized (pool_from host b rounds i c) ≡ false
  unfolding pool_from
  pool_from-ready host b c zero i h = h
  pool_from-ready host b c (suc rounds) i h =
      pool_from-ready host b (add_to_pool host b i c) rounds (i + 1) (add_to_pool-ready host b i c)

  pool_from-ready_pos :
      (host : Host) (b : Broker) (c : Client) (rounds i : ℕ)
      → 0 < rounds
      → is_uninitialized (pool_from host b rounds i c) ≡ false
  unfolding pool_from
  pool_from-ready_pos host b c zero i h = absurd (omega arith)
  pool_from-ready_pos host b c (suc rounds) i h =
      pool_from-ready host b (add_to_pool host b i c) rounds (i + 1) (add_to_pool-ready host b i c)

  -- A client that NewClient returned.
  pub new_client-created :
      (host : Host) (b : Broker) (opts : List ClientOption) (c : Client)
      → new_client host b opts ≡ created c
      → (refusal (configured opts) ≡ none)
        × (c ≡ initialize host b (empty_client (configured opts)))
  unfolding new_client
  new_client-created host b opts c h = elim (Option-cases (refusal (configured opts))) [
    | inl e ↦ (e, cc (rw (e, new_client) at h))
    | inr (x, e) ↦ cc (rw (e, new_client) at h)
  ]

  -- What a client of the pool mode starts with.
  pub record StartsAsPool (host : Host) (b : Broker) (o : ClientOptions) (c : Client) : Type 0 where
    pub ready : IsMulti c
    pub members : c.ordered_clients ≡ pool_members host b o o.pool_size 0
    pub several : 2 ≤ length c.ordered_clients
    pub counter : c.rr_counter ≡ 0

  starts_as_pool :
      (host : Host) (b : Broker) (o : ClientOptions)
      → 2 ≤ o.pool_size
      → o.pool_enabled ≡ true
      → StartsAsPool host b o (initialize_connection_pool host b (empty_client o))
  unfolding initialize_connection_pool empty_client pool_from
  starts_as_pool host b o two on =
      let start = record (empty_client o) { mqtt_clients = []; ordered_clients = [] } in
      let h = pool_from-Pooled host b start o.pool_size 0 in
      let ready : is_uninitialized (pool_from host b o.pool_size 0 start) ≡ false =
        pool_from-ready_pos host b start o.pool_size 0 (omega arith) in
      record {
        ready = (ready, rw (h.options, on) refl);
        members = h.ordered;
        several = rw (h.ordered, length-pool_members host b o o.pool_size 0) two;
        counter = h.counter;
      }

  initialize-pool :
      (host : Host) (b : Broker) (o : ClientOptions)
      → o.broker_address ≢ ""
      → o.pool_enabled ≡ true
      → initialize host b (empty_client o) ≡ initialize_connection_pool host b (empty_client o)
  unfolding initialize empty_client
  initialize-pool host b o address on =
      if_false _ _ _ (str_ne o.broker_address "" address) ∙ if_true _ _ _ on

  -- The client of one connection.
  abbrev single_client : Host → Broker → ClientOptions → Client
  single_client host b o = record (empty_client o) {
    mqtt_client = some (b.new_client (to_client_options host o ""));
  }

  initialize-single :
      (host : Host) (b : Broker) (o : ClientOptions)
      → o.broker_address ≢ ""
      → o.pool_enabled ≡ false
      → initialize host b (empty_client o) ≡ single_client host b o
  unfolding initialize empty_client
  initialize-single host b o address off =
      if_false _ _ _ (str_ne o.broker_address "" address) ∙ if_false _ _ _ off

  -- A client that NewClient makes with an address and a pool size above one has that many
  -- connections, opened with the client ID suffixes -0, -1, and so on, and is ready for the round
  -- robin, which begins at its first connection.
  pub new_client-StartsAsPool :
      (host : Host) (b : Broker) (opts : List ClientOption) (c : Client)
      → new_client host b opts ≡ created c
      → (configured opts).broker_address ≢ ""
      → 1 < (configured opts).pool_size
      → StartsAsPool host b (configured opts) c
  new_client-StartsAsPool host b opts c h address size =
      let o = configured opts in
      let on : o.pool_enabled ≡ true =
        pool_enabled-apply_client_options opts ∙ lt→ltb 1 o.pool_size size in
      let made = (new_client-created host b opts c h).1 ∙ initialize-pool host b o address on in
      subst (StartsAsPool host b o) (sym made) (starts_as_pool host b o size on)

  -- A client that NewClient makes with an address in the multiple connection mode has its single
  -- connection only.
  pub new_client-multi :
      (host : Host) (b : Broker) (opts : List ClientOption) (c : Client)
      → new_client host b opts ≡ created c
      → (configured opts).broker_address ≢ ""
      → (configured opts).multi_connection_mode ≡ true
      → (c.options.multi_connection_mode ≡ true)
        × (c.mqtt_client ≡ some (b.new_client (to_client_options host (configured opts) "")))
        × (c.mqtt_clients ≡ [])
        × (c.ordered_clients ≡ [])
  unfolding empty_client
  new_client-multi host b opts c h address multi =
      let o = configured opts in
      let (accepted, made) = new_client-created host b opts c h in
      let off : o.pool_enabled ≡ false =
        ground (arith, ((refusal-eq-none_iff o).0 accepted).one_mode) in
      let single = made ∙ initialize-single host b o address off in
      (
        ap (λ (d : Client). d.options.multi_connection_mode) single ∙ multi,
        ap (λ (d : Client). d.mqtt_client) single,
        ap (λ (d : Client). d.mqtt_clients) single,
        ap (λ (d : Client). d.ordered_clients) single,
      )
