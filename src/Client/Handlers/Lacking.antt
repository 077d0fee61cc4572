-- ===== src/Client/Handlers/Lacking.antt =====
-- The connections that lack or hold a topic, before and after a call on each of them.
use courier_go.Base.{
  String, true, false, none, some, List, [], ◌∷◌, ◌≡◌, refl, arith, map, str_eq, contains,
  if◌then◌else◌, eq_iff, Bool-cases, inl, inr,
}
use courier_go.Errors.Accumulate.{collected}
use courier_go.Libs.{Libs}
use courier_go.Paho.{MqttClient}
use courier_go.Client.{InternalState}
use courier_go.Client.Exec.{Call, StateResult, states, write_back, all_calls, results}
use courier_go.Client.Handlers.{subscribe_only_once, remove_subs_from_state}

module _ ⦃libs : Libs⦄ where
  -- The connections whose state lacks a topic, in the order of the map.
  abbrev pub lacking : String → List InternalState → List MqttClient
  lacking topic [] = []
  lacking topic (s ∷ ss) =
      let rest = lacking topic ss in if libs.has s.subs_called topic then rest else s.client ∷ rest

  -- Those of a list of connections on which a call fails.
  abbrev pub failing : Call → List MqttClient → List MqttClient
  failing f [] = []
  failing f (m ∷ ms) = let rest = failing f ms in elim (f m) [ none ↦ rest | some e ↦ m ∷ rest ]

  -- The connections whose state has a topic, in the order of the map.
  abbrev pub holding : String → List InternalState → List MqttClient
  holding topic [] = []
  holding topic (s ∷ ss) =
      let rest = holding topic ss in if libs.has s.subs_called topic then s.client ∷ rest else rest

  abbrev states_after : List StateResult → List InternalState
  states_after [] = []
  states_after (r ∷ rs) = r.state ∷ states_after rs

  str_eq_refl : (s : String) → str_eq s s ≡ true
  str_eq_refl s = (eq_iff s s).1 refl

  module _ (topic : String) (f : Call) where
    abbrev pub once : List InternalState → List StateResult
    once ss = map (subscribe_only_once topic f) ss

    pub calls-once : (ss : List InternalState) → all_calls (once ss) ≡ lacking topic ss
    unfolding all_calls subscribe_only_once
    calls-once [] = refl
    calls-once (s ∷ ss) = ground (arith, calls-once ss)

    lacking-once :
        (ss : List InternalState)
        → lacking topic (states_after (once ss)) ≡ failing f (lacking topic ss)
    unfolding subscribe_only_once
    lacking-once [] = refl
    lacking-once (s ∷ ss) =
        ground (arith, lacking-once ss, libs.has-add s.subs_called topic topic, str_eq_refl topic)

    lacking-once_other :
        (other : String) (ss : List InternalState)
        → str_eq topic other ≡ false
        → lacking other (states_after (once ss)) ≡ lacking other ss
    unfolding subscribe_only_once
    lacking-once_other other [] h = refl
    lacking-once_other other (s ∷ ss) h =
        ground (arith, lacking-once_other other ss h, libs.has-add s.subs_called topic other)

    pub lacking-once_any :
        (any : String) (ss : List InternalState)
        → lacking any (states_after (once ss))
          ≡ (if str_eq topic any then failing f (lacking topic ss) else lacking any ss)
    lacking-once_any any ss = elim (Bool-cases (str_eq topic any)) [
      | inl same ↦ rw (same, ← (eq_iff topic any).0 same) (lacking-once ss)
      | inr other ↦ rw other (lacking-once_other any ss other)
    ]

    pub collected-once :
        (ss : List InternalState)
        → collected (results (once ss)) ≡ collected (map f (lacking topic ss))
    unfolding results subscribe_only_once
    collected-once [] = refl
    collected-once (s ∷ ss) = ground (arith, collected-once ss)

  module _ (topics : List String) (f : Call) where
    abbrev pub removed : List InternalState → List StateResult
    removed ss = map (remove_subs_from_state topics f) ss

    pub calls-removed : (ss : List InternalState) → all_calls (removed ss) ≡ map (λ s. s.client) ss
    unfolding all_calls remove_subs_from_state
    calls-removed [] = refl
    calls-removed (s ∷ ss) = ground (arith, calls-removed ss)

    holding-removed :
        (topic : String) (ss : List InternalState)
        → contains topics topic ≡ true
        → holding topic (states_after (removed ss)) ≡ failing f (holding topic ss)
    unfolding remove_subs_from_state
    holding-removed topic [] h = refl
    holding-removed topic (s ∷ ss) h =
        ground (arith, holding-removed topic ss h, libs.has-delete s.subs_called topics topic)

    holding-removed_other :
        (topic : String) (ss : List InternalState)
        → contains topics topic ≡ false
        → holding topic (states_after (removed ss)) ≡ holding topic ss
    unfolding remove_subs_from_state
    holding-removed_other topic [] h = refl
    holding-removed_other topic (s ∷ ss) h =
        ground (arith, holding-removed_other topic ss h, libs.has-delete s.subs_called topics topic)

    pub holding-removed_any :
        (topic : String) (ss : List InternalState)
        → holding topic (states_after (removed ss))
          ≡ (if contains topics topic then failing f (holding topic ss) else holding topic ss)
    holding-removed_any topic ss = elim (Bool-cases (contains topics topic)) [
      | inl inside ↦ rw inside (holding-removed topic ss inside)
      | inr outside ↦ rw outside (holding-removed_other topic ss outside)
    ]

    pub collected-removed :
        (ss : List InternalState)
        → collected (results (removed ss)) ≡ collected (map f (map (λ s. s.client) ss))
    unfolding results remove_subs_from_state
    collected-removed [] = refl
    collected-removed (s ∷ ss) = ground (arith, collected-removed ss)

  pub states-write_back :
      (g : InternalState → StateResult) (m : List (String × InternalState))
      → states (write_back m (map g (states m))) ≡ states_after (map g (states m))
  unfolding states write_back
  states-write_back g [] = refl
  states-write_back g ((k, s) ∷ m) = λ i. (g s).state ∷ states-write_back g m i
