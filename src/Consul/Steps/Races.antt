-- ===== src/Consul/Steps/Races.antt =====
-- Interleavings that consul/resolver.go leaves open.
use courier_go.Base.{
  ℕ, suc, String, true, none, false, some, List, [], ◌∷◌, ◌++◌, ◌≡◌, subst, sym, refl, arith,
  lt_int, pos,
}
use courier_go.Address.{TcpAddress}
use courier_go.Address.Equality.{are_addresses_equal}
use courier_go.Address.Equality.Counting.{are_addresses_equal_iff}
use courier_go.Consul.{Resolver}
use courier_go.Consul.Discovery.{
  is_new_name, set_service_name, record_kv_value_change, schedule_address_update, take_pending,
}
use courier_go.Consul.Steps.{
  Pick, optional, System, rename, schedule, go_on, take, close_done, close_channel, send, receive,
  send_closed, Reach, next,
}

renamed :
    (name : String) (r : Resolver)
    → is_new_name name r ≡ true
    → ((set_service_name name r).service_name ≡ name)
      × ((set_service_name name r).last_addresses ≡ r.last_addresses)
      × ((set_service_name name r).debounce_duration ≡ r.debounce_duration)
unfolding set_service_name record_kv_value_change
renamed name r new = ground (arith, new)

scheduled :
    (addresses : List TcpAddress) (r : Resolver)
    → lt_int (pos 0) r.debounce_duration ≡ true
    → are_addresses_equal r.last_addresses addresses ≡ false
    → ((schedule_address_update addresses r).0.service_name ≡ r.service_name)
      × ((schedule_address_update addresses r).0.armed ≡ true)
      × ((schedule_address_update addresses r).0.pending_addresses ≡ some addresses)
unfolding schedule_address_update
scheduled addresses r positive new = ground (arith, positive, new)

-- Addresses that a discovery has found for the old service name are pending under a new one when
-- the name changes between the last section of discover and scheduleAddressUpdate: its test of
-- the name is over by then. This holds of every state with such addresses, if they differ from
-- the ones published last.
pub found_addresses_outlive_rename :
    (s : System) (addresses : List TcpAddress) (rest : List (List TcpAddress)) (name : String)
    → Pick addresses s.found rest
    → lt_int (pos 0) s.resolver.debounce_duration ≡ true
    → are_addresses_equal s.resolver.last_addresses addresses ≡ false
    → is_new_name name s.resolver ≡ true
    → (t : System) × Reach s t
      × (t.resolver.service_name ≡ name)
      × (t.resolver.pending_addresses ≡ some addresses)
      × (t.resolver.armed ≡ true)
found_addresses_outlive_rename s addresses rest name p positive new fresh =
    let r = set_service_name name s.resolver in
    let after = renamed name s.resolver fresh in
    let here : lt_int (pos 0) r.debounce_duration ≡ true = ground (arith, after, positive) in
    let out = scheduled addresses r here (ground (arith, after, new)) in
    (
      _,
      next (next Reach.here (rename name)) (schedule addresses rest p here),
      ground (arith, out, after),
      out.2,
      out.1,
    )

pending_is_sent :
    (r : Resolver) (addresses : List TcpAddress) (sending : List (List TcpAddress))
    → r.pending_addresses ≡ some addresses
    → Pick addresses (optional (take_pending r).1 ++ sending) sending
unfolding take_pending
pending_is_sent r addresses sending pending =
    let out : (take_pending r).1 ≡ some addresses = ground (arith, pending) in
    subst (λ o. Pick addresses (optional o ++ sending) sending) (sym out) Pick.here

-- A send on the closed update channel is reachable: from a state where a timer's function has
-- started with addresses to publish, no discovery is on its way and the resolver still runs, the
-- function may find doneChan open, Stop may close it, Start may close updateChan, and the function
-- then sends.
pub stop_races_timer :
    (s : System) (n : ℕ) (addresses : List TcpAddress)
    → s.fired ≡ suc n
    → s.resolver.pending_addresses ≡ some addresses
    → s.queries ≡ []
    → s.found ≡ []
    → s.done ≡ false
    → s.closed ≡ false
    → (t : System) × Reach s t × (t.panicked ≡ true)
stop_races_timer s n addresses fired pending queries found running is_open = (
  _,
  next
      (next
        (next (next (next Reach.here (go_on n fired running)) (close_done running))
          (close_channel refl is_open queries found))
        (take s.past_check refl))
      (send_closed addresses s.sending (pending_is_sent s.resolver addresses s.sending pending)
        refl),
  refl,
)

taken_last :
    (r : Resolver) (addresses : List TcpAddress)
    → r.pending_addresses ≡ some addresses
    → (take_pending r).0.last_addresses ≡ addresses
unfolding take_pending
taken_last r addresses pending = ground (arith, pending)

nothing_new :
    (addresses : List TcpAddress) (r : Resolver)
    → r.last_addresses ≡ addresses
    → ((schedule_address_update addresses r).0.armed ≡ false)
      × ((schedule_address_update addresses r).0.pending_addresses ≡ none)
unfolding schedule_address_update
nothing_new addresses r same =
    ground (arith, same, (are_addresses_equal_iff addresses addresses).1 (λ x. refl))

-- Published lists may arrive in the wrong order, since they are sent outside the mutex: from a state
-- where one list waits to be sent and a timer's function is about to take the next one, the
-- reader may get the next one first and the one before it last. Then nothing is on its way, the
-- resolver takes the next one for the list published last, and a discovery that finds it again
-- schedules nothing.
pub stale_list_stays :
    (s : System) (n : ℕ) (old new : List TcpAddress)
    → s.past_check ≡ suc n
    → s.resolver.pending_addresses ≡ some new
    → s.sending ≡ old ∷ []
    → s.channel ≡ []
    → s.closed ≡ false
    → (t : System) × Reach s t
      × (t.received ≡ old ∷ new ∷ s.received)
      × (t.channel ≡ [])
      × (t.sending ≡ [])
      × (t.resolver.last_addresses ≡ new)
      × ((schedule_address_update new t.resolver).0.armed ≡ false)
      × ((schedule_address_update new t.resolver).0.pending_addresses ≡ none)
stale_list_stays s n old new past pending waits empty is_open =
    let last = taken_last s.resolver new pending in
    let quiet = nothing_new new (take_pending s.resolver).0 last in
    let second : Pick old s.sending [] = subst (λ l. Pick old l []) (sym waits) Pick.here in
    (
      _,
      next
          (next
            (next
              (next (next Reach.here (take n past)) (
                send new s.sending (pending_is_sent s.resolver new s.sending pending) empty
                  is_open))
              (receive new [] refl))
            (send old [] second refl is_open))
          (receive old [] refl),
      refl,
      refl,
      refl,
      last,
      quiet.0,
      quiet.1,
    )
