-- ===== src/Consul/Discovery/Debounce.antt =====
-- scheduleAddressUpdate and its timer's function, one after the other.
use courier_go.Base.{
  true, none, some, List, [], ◌∷◌, ◌++◌, ◌≡◌, ◌∙◌, ap, arith, lt_int, pos, if◌then◌else◌,
}
use courier_go.Address.{TcpAddress}
use courier_go.Address.Equality.{are_addresses_equal}
use courier_go.Consul.{Resolver}
use courier_go.Consul.Discovery.{schedule_address_update, take_pending}

-- A burst of discoveries before the timer fires, oldest first.
abbrev pub schedule_all : Resolver → List (List TcpAddress) → Resolver
schedule_all r [] = r
schedule_all r (a ∷ l) = schedule_all (schedule_address_update a r).0 l

scheduled_once :
    (a : List TcpAddress) (r : Resolver)
    → lt_int (pos 0) r.debounce_duration ≡ true
    → ((schedule_address_update a r).0.last_addresses ≡ r.last_addresses)
      × (lt_int (pos 0) (schedule_address_update a r).0.debounce_duration ≡ true)
      × ((schedule_address_update a r).0.pending_addresses
          ≡ (if are_addresses_equal r.last_addresses a then none else some a))
unfolding schedule_address_update
scheduled_once a r positive = ground arith

take_pending_lem : (r : Resolver) → (take_pending r).1 ≡ r.pending_addresses
unfolding take_pending
take_pending_lem r = ground arith

-- With a positive debounce duration, the timer that fires after a burst of discoveries publishes
-- the addresses of the last one, whatever came before it, and nothing if they are the ones
-- published last.
pub take_pending-schedule_all :
    (r : Resolver) (burst : List (List TcpAddress)) (a : List TcpAddress)
    → lt_int (pos 0) r.debounce_duration ≡ true
    → (take_pending (schedule_all r (burst ++ (a ∷ [])))).1
      ≡ (if are_addresses_equal r.last_addresses a then none else some a)
take_pending-schedule_all r [] a positive =
    let once = scheduled_once a r positive in
    take_pending_lem (schedule_address_update a r).0 ∙ once.2
take_pending-schedule_all r (b ∷ burst) a positive =
    let once = scheduled_once b r positive in
    take_pending-schedule_all (schedule_address_update b r).0 burst a once.1
    ∙ ap (λ l. if are_addresses_equal l a then none else some a) once.0
