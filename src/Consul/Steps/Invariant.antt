-- ===== src/Consul/Steps/Invariant.antt =====
-- What holds of the resolver in every interleaving.
use courier_go.Base.{
  ℕ, suc, ◌+◌, ◌≤◌, ◌<◌, String, true, false, Option, none, some, List, [], ◌∷◌, ◌++◌, length, ◌≡◌,
  ◌⊎◌, inl, inr, refl, arith, lt_int, pos, Option-cases,
}
use courier_go.Address.{TcpAddress}
use courier_go.Address.Equality.{are_addresses_equal}
use courier_go.Consul.{Resolver}
use courier_go.Consul.Discovery.{
  HealthAnswer, health, health_error, store_answer, schedule_address_update, take_pending,
  set_service_name,
}
use courier_go.Consul.Steps.{
  Pick, here, there, optional, System, Step, query, answer, schedule, rename, fire, give_up, go_on,
  take, send, drop, send_closed, receive, close_done, stop_timer, close_channel, Reach, next,
  initial,
}

length-Pick : {A : Type 0} {a : A} {xs ys : List A} → Pick a xs ys → length xs ≡ suc (length ys)
length-Pick here = refl
length-Pick (there p) = omega (arith, length-Pick p)

-- The newest entry, or the empty list, which lastAddresses begins with.
abbrev pub newest : List (List TcpAddress) → List TcpAddress
newest [] = []
newest (a ∷ l) = a

-- Each list differs, as a collection of addresses, from the one before it.
abbrev pub Changes : List (List TcpAddress) → Type 0
Changes [] = Unit
Changes (a ∷ l) = (are_addresses_equal (newest l) a ≡ false) × Changes l

abbrev pub IsNews : List TcpAddress → Option (List TcpAddress) → Type 0
IsNews last none = Unit {0}
IsNews last (some a) = are_addresses_equal last a ≡ false

-- A timer or one of its functions will look at the pending addresses.
abbrev pub IsAwaited : System → Type 0
IsAwaited s =
    (s.resolver.pending_addresses ≡ none)
    ⊎ (s.done ≡ true)
    ⊎ (s.resolver.armed ≡ true)
    ⊎ (0 < s.fired + s.past_check)

pub record Inv (s : System) : Type 0 where
  pub changes : Changes s.taken
  pub last : s.resolver.last_addresses ≡ newest s.taken
  pub news : IsNews s.resolver.last_addresses s.resolver.pending_addresses
  pub conserved :
      length s.taken ≡ length s.received + length s.channel + length s.sending + s.dropped
  pub buffered : length s.channel ≤ 1
  pub awaited : IsAwaited s

-- The parts of a resolver that the invariant reads.
abbrev pub SameView : Resolver → Resolver → Type 0
SameView r r' =
    (r'.last_addresses ≡ r.last_addresses)
    × (r'.pending_addresses ≡ r.pending_addresses)
    × (r'.armed ≡ r.armed)

pub store_answer-SameView :
    (name : String) (a : HealthAnswer) (r : Resolver) → SameView r (store_answer name a r).0
unfolding store_answer
store_answer-SameView name health_error r = ground arith
store_answer-SameView name (health index services) r = ground arith

pub set_service_name-SameView :
    (name : String) (r : Resolver) → SameView r (set_service_name name r)
unfolding set_service_name
set_service_name-SameView name r = ground arith

-- The two outcomes of scheduleAddressUpdate with a positive debounce duration.
pub schedule_cases :
    (addresses : List TcpAddress) (r : Resolver)
    → lt_int (pos 0) r.debounce_duration ≡ true
    → ((schedule_address_update addresses r).0.last_addresses ≡ r.last_addresses)
      × (((schedule_address_update addresses r).0.pending_addresses ≡ none)
          ⊎ (((schedule_address_update addresses r).0.armed ≡ true)
              × ((schedule_address_update addresses r).0.pending_addresses ≡ some addresses)
              × (are_addresses_equal r.last_addresses addresses ≡ false)))
unfolding schedule_address_update
schedule_cases addresses r positive = ground arith

-- The two outcomes of the timer's function.
pub take_cases :
    (r : Resolver)
    → ((r.pending_addresses ≡ none) × (take_pending r ≡ (r, none)))
      ⊎ ((a : List TcpAddress) × (r.pending_addresses ≡ some a)
          × ((take_pending r).1 ≡ some a)
          × ((take_pending r).0.last_addresses ≡ a)
          × ((take_pending r).0.pending_addresses ≡ none))
unfolding take_pending
take_cases r = elim (Option-cases r.pending_addresses) [
  | inl e ↦ inl (e, ground (arith, e))
  | inr (a, e) ↦ inr (a, e, ground (arith, e), ground (arith, e), ground (arith, e))
]

take-Inv :
    (s : System) (n : ℕ)
    → s.past_check ≡ suc n
    → Inv s
    → Inv (record s {
      resolver = (take_pending s.resolver).0;
      past_check = n;
      sending = optional (take_pending s.resolver).1 ++ s.sending;
      taken = optional (take_pending s.resolver).1 ++ s.taken;
    })
take-Inv s n e v = elim (take_cases s.resolver) [
  | inl (nothing, same) ↦ rw same (ground arith)
  | inr (a, pending, out, last, cleared) ↦ rw out (ground arith)
]

Step-Inv : {s t : System} → Step s t → Inv s → Inv t
Step-Inv (query idle running) v = record {
  changes = v.changes;
  last = v.last;
  news = v.news;
  conserved = v.conserved;
  buffered = v.buffered;
  awaited = v.awaited;
}
Step-Inv {s} (answer name rest a p) v = ground (arith, store_answer-SameView name a s.resolver)
Step-Inv {s} (schedule addresses rest p positive) v =
    ground (arith, schedule_cases addresses s.resolver positive)
Step-Inv {s} (rename name) v = ground (arith, set_service_name-SameView name s.resolver)
Step-Inv (fire armed) v = ground arith
Step-Inv (give_up n e d) v = ground arith
Step-Inv (go_on n e d) v = ground arith
Step-Inv {s} (take n e) v = take-Inv s n e v
Step-Inv (send a rest p empty not_closed) v = ground (arith, length-Pick p)
Step-Inv (drop a rest p d) v = ground (arith, length-Pick p)
Step-Inv (send_closed a rest p c) v = ground arith
Step-Inv (receive a rest e) v = ground arith
Step-Inv (close_done d) v = ground arith
Step-Inv (stop_timer d) v = ground arith
Step-Inv (close_channel d c q f) v = ground arith

pub Reach-Inv : {s t : System} → Inv s → Reach s t → Inv t
Reach-Inv v Reach.here = v
Reach-Inv v (next r st) = Step-Inv st (Reach-Inv v r)

-- A resolver that has published nothing and has nothing to publish.
abbrev pub IsFresh : Resolver → Type 0
IsFresh r = (r.last_addresses ≡ []) × (r.pending_addresses ≡ none)

pub initial-Inv : (r : Resolver) → IsFresh r → Inv (initial r)
initial-Inv r (last, pending) = record {
  changes = tt;
  last = last;
  news = rw pending tt;
  conserved = omega arith;
  buffered = omega arith;
  awaited = inl pending;
}

-- Whatever the interleaving from a resolver that has published nothing and has nothing pending, the
-- address lists that it publishes change each time: each
-- differs from the one before it, and the first from the empty list, as collections of
-- addresses; and lastAddresses is the newest of them.
pub Reach-Changes :
    {r : Resolver} {t : System}
    → IsFresh r
    → Reach (initial r) t
    → Changes t.taken × (t.resolver.last_addresses ≡ newest t.taken)
Reach-Changes {r} h reach = let v = Reach-Inv (initial-Inv r h) reach in (v.changes, v.last)

-- Whatever the interleaving from a resolver that has published nothing and has nothing pending,
-- pending addresses are never forgotten before Stop: a debounce timer
-- is armed, or one of its functions has still to look at them. They differ from the addresses
-- published last.
pub Reach-awaited :
    {r : Resolver} {t : System} (a : List TcpAddress)
    → IsFresh r
    → Reach (initial r) t
    → t.done ≡ false
    → t.resolver.pending_addresses ≡ some a
    → ((t.resolver.armed ≡ true) ⊎ (0 < t.fired + t.past_check))
      × (are_addresses_equal t.resolver.last_addresses a ≡ false)
Reach-awaited {r} a h reach running pending =
    let v = Reach-Inv (initial-Inv r h) reach in (ground (arith, v.awaited), ground (arith, v.news))
