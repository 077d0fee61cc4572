-- ===== src/Client/Lifecycle/Stopped.antt =====
-- Stopping a client, and what is left of it.
use courier_go.Base.{
  true, none, some, List, [], ◌∷◌, map, ◌≡◌, refl, ap, sym, ◌∙◌, ◌↔◌, or_true, Bool-cases, inl, inr,
}
use mathlib.Core.List.{Memᴰ}
use courier_go.Errors.{sentinel, client_not_initialized}
use courier_go.Errors.Accumulate.{collected, combined}
use courier_go.Libs.{Libs}
use courier_go.Paho.{MqttClient, Context, Broker}
use courier_go.Client.{Client}
use courier_go.Client.Exec.{Call, ExecOpt, exec_all, returned, execute, fails}
use courier_go.Client.Exec.Laws.{IsMulti, connections, execute-exec_all}
use courier_go.Client.Lifecycle.{
  background, cleared, after_disconnect, stop, is_connected, open_after, any_open, is_nil,
}

module _ ⦃libs : Libs⦄ where
  collected_of_none : (ms : List MqttClient) → collected (map (λ (m : MqttClient). none) ms) ≡ []
  collected_of_none [] = refl
  collected_of_none (m ∷ ms) = collected_of_none ms

  -- Running a function that does nothing on every connection.
  run_nothing :
      (c : Client) (b : Broker)
      → IsMulti c
      → execute c background b (λ cc. none) exec_all
        ≡ record { client = c; calls = connections c; notified = []; outcome = returned none }
  run_nothing c b h =
      execute-exec_all c background b (λ cc. none) h
      ∙ ap
          (λ es. record {
            client = c;
            calls = connections c;
            notified = [];
            outcome = returned (combined es);
          })
          (collected_of_none (connections c))

  -- With several connections, stopping a client disconnects each of them once, in the order of
  -- the map, stops the information emitter, returns nil, and leaves no connection behind: whatever is executed
  -- afterwards runs on nothing and returns ErrClientNotInitialized, a second stop included.
  pub stop_once :
      (c : Client) (b later : Broker) (ctx : Context) (f : Call) (eo : ExecOpt)
      → IsMulti c
      → (stop c b ≡ record {
        client = cleared c;
        calls = connections c;
        notified = [];
        outcome = returned none;
      })
        × (execute (cleared c) ctx later f eo
            ≡ fails (cleared c) (returned (some (sentinel client_not_initialized))))
        × ((stop (cleared c) later).outcome ≡ returned (some (sentinel client_not_initialized)))
  unfolding stop execute fails
  stop_once c b later ctx f eo h = (ap after_disconnect (run_nothing c b h), refl, refl)

  -- One of the connections is open.
  abbrev pub HasOpen : Broker → List MqttClient → Type 0
  HasOpen b ms = (m : MqttClient) × Memᴰ m ms × (b.is_connection_open m ≡ true)

  any_open-HasOpen : (b : Broker) (ms : List MqttClient) → any_open b ms ≡ true → HasOpen b ms
  unfolding any_open
  any_open-HasOpen b [] h = cc
  any_open-HasOpen b (m ∷ ms) h = elim (Bool-cases (b.is_connection_open m)) [
    | inl here ↦ (m, Memᴰ.head refl, here)
    | inr not_here ↦
        let (n, inside, found) = any_open-HasOpen b ms (rw not_here at h) in
        (n, Memᴰ.tail inside, found)
  ]

  any_open_of_mem :
      (b : Broker) (m : MqttClient) (ms : List MqttClient)
      → Memᴰ m ms
      → b.is_connection_open m ≡ true
      → any_open b ms ≡ true
  unfolding any_open
  any_open_of_mem b m [] i h = elim i [ ]
  any_open_of_mem b m (n ∷ ms) (Memᴰ.head e) h = rw (← e, h)
  any_open_of_mem b m (n ∷ ms) (Memᴰ.tail i) h = or_true _ _ (any_open_of_mem b m ms i h)

  -- With several connections, IsConnected is true exactly if one of them is open.
  pub is_connected_iff :
      (c : Client) (b : Broker) → IsMulti c → (is_connected c b ≡ true) ↔ HasOpen b (connections c)
  unfolding is_connected open_after is_nil
  is_connected_iff c b h =
      let same = ap (open_after b) (run_nothing c b h) in
      (
        λ e. any_open-HasOpen b (connections c) (sym same ∙ e),
        λ o. same ∙ any_open_of_mem b o.0 (connections c) o.1 o.2,
      )
