-- ===== src/Consul/Steps.antt =====
-- The goroutines of consul/resolver.go, interleaved: discoveries of watchServices and watchKV, the
-- timer's functions, the reader of UpdateChan, Stop, and the end of Start. The resolver has a
-- positive debounce duration (NewResolver replaces zero by five seconds).
pub mod Invariant
pub mod Races
pub mod Debouncer
use courier_go.Base.{
  ℕ, zero, suc, ◌+◌, ◌<◌, String, Bool, true, false, Option, none, some, List, [], ◌∷◌, ◌++◌,
  length, ◌≡◌, refl, arith, lt_int, pos,
}
use courier_go.Address.{TcpAddress}
use courier_go.Consul.{Resolver}
use courier_go.Consul.Discovery.{
  KvAnswer, HealthAnswer, store_answer, schedule_address_update, take_pending, set_service_name,
}

-- A list with one of its elements taken out.
pub data Pick {A : Type 0} (a : A) : List A → List A → Type 0 where
  here : {xs : List A} → Pick a (a ∷ xs) xs
  there : {x : A} {xs ys : List A} → Pick a xs ys → Pick a (x ∷ xs) (x ∷ ys)

abbrev pub optional : {A : Type 0} → Option A → List A
optional none = []
optional (some a) = a ∷ []

-- The resolver and what is on its way: service names whose query has not answered (`queries`),
-- addresses between the second section of discover and scheduleAddressUpdate (`found`), timer
-- functions before and after their look at doneChan (`fired`, `past_check`), publishes in their
-- select (`sending`), the buffer of updateChan, and what its reader got, newest first. `taken` lists
-- what was put into lastAddresses to be published, newest first.
pub record System : Type 0 where
  pub resolver : Resolver
  pub queries : List String
  pub found : List (List TcpAddress)
  pub fired : ℕ
  pub past_check : ℕ
  pub sending : List (List TcpAddress)
  pub channel : List (List TcpAddress)
  pub received : List (List TcpAddress)
  pub dropped : ℕ
  pub taken : List (List TcpAddress)
  pub done : Bool
  pub closed : Bool
  pub panicked : Bool

pub data Step (s : System) : System → Type 0 where
  -- discover: the first section; at most watchServices and watchKV are in it
  query :
      length s.queries + length s.found < 2
      → s.closed ≡ false
      → Step s (record s { queries = s.resolver.service_name ∷ s.queries })
  -- discover: the answer, and the second section
  answer :
      (name : String) (rest : List String) (a : HealthAnswer)
      → Pick name s.queries rest
      → Step s (record s {
        resolver = (store_answer name a s.resolver).0;
        queries = rest;
        found = optional (store_answer name a s.resolver).1 ++ s.found;
      })
  -- scheduleAddressUpdate
  schedule :
      (addresses : List TcpAddress) (rest : List (List TcpAddress))
      → Pick addresses s.found rest
      → lt_int (pos 0) s.resolver.debounce_duration ≡ true
      → Step s
          (record s { resolver = (schedule_address_update addresses s.resolver).0; found = rest })
  -- the section of watchKV and of updateServiceNameFromKV
  rename : (name : String) → Step s (record s { resolver = set_service_name name s.resolver })
  -- the debounce timer fires
  fire :
      s.resolver.armed ≡ true
      → Step s (record s { resolver = record (s.resolver) { armed = false }; fired = suc s.fired })
  -- the timer's function looks at doneChan
  give_up : (n : ℕ) → s.fired ≡ suc n → s.done ≡ true → Step s (record s { fired = n })
  go_on :
      (n : ℕ)
      → s.fired ≡ suc n
      → s.done ≡ false
      → Step s (record s { fired = n; past_check = suc s.past_check })
  -- the section of the timer's function
  take :
      (n : ℕ)
      → s.past_check ≡ suc n
      → Step s (record s {
        resolver = (take_pending s.resolver).0;
        past_check = n;
        sending = optional (take_pending s.resolver).1 ++ s.sending;
        taken = optional (take_pending s.resolver).1 ++ s.taken;
      })
  -- publishAddressUpdate: the send, into a buffer of one
  send :
      (a : List TcpAddress) (rest : List (List TcpAddress))
      → Pick a s.sending rest
      → s.channel ≡ []
      → s.closed ≡ false
      → Step s (record s { sending = rest; channel = a ∷ [] })
  -- publishAddressUpdate: doneChan is closed
  drop :
      (a : List TcpAddress) (rest : List (List TcpAddress))
      → Pick a s.sending rest
      → s.done ≡ true
      → Step s (record s { sending = rest; dropped = suc s.dropped })
  -- publishAddressUpdate: a send on the closed channel panics
  send_closed :
      (a : List TcpAddress) (rest : List (List TcpAddress))
      → Pick a s.sending rest
      → s.closed ≡ true
      → Step s (record s { panicked = true })
  -- the reader of UpdateChan
  receive :
      (a : List TcpAddress) (rest : List (List TcpAddress))
      → s.channel ≡ a ∷ rest
      → Step s (record s { channel = rest; received = a ∷ s.received })
  -- Stop: close(doneChan), and the section that stops the timer
  close_done : s.done ≡ false → Step s (record s { done = true })
  stop_timer :
      s.done ≡ true → Step s (record s { resolver = record (s.resolver) { armed = false } })
  -- Start: both watchers have returned
  close_channel :
      s.done ≡ true
      → s.closed ≡ false
      → s.queries ≡ []
      → s.found ≡ []
      → Step s (record s { closed = true })

pub data Reach (s : System) : System → Type 0 where
  here : Reach s s
  next : {t u : System} → Reach s t → Step t u → Reach s u

-- The system around a new resolver.
abbrev pub initial : Resolver → System
initial r = record {
  resolver = r;
  queries = [];
  found = [];
  fired = 0;
  past_check = 0;
  sending = [];
  channel = [];
  received = [];
  dropped = 0;
  taken = [];
  done = false;
  closed = false;
  panicked = false;
}
