-- ===== src/Consul/Steps/Debouncer.antt =====
-- The resolver against an abstract debouncer of collections of addresses.
use courier_go.Base.{
  ℕ, ◌++◌, Option, none, some, List, [], ◌∷◌, map, ◌≡◌, ◌≢◌, refl, ap, sym, subst, ◌∙◌, inl, inr,
  pos, lt_int, true,
}
use courier_go.Address.{TcpAddress}
use courier_go.Address.Equality.Collection.{Collection, collect, collect-ne}
use courier_go.Consul.{Resolver}
use courier_go.Consul.Discovery.{schedule_address_update, take_pending}
use courier_go.Consul.Steps.{
  optional, System, Step, query, answer, schedule, rename, fire, give_up, go_on, take, send, drop,
  send_closed, receive, close_done, stop_timer, close_channel, Reach, next, initial,
}
use courier_go.Consul.Steps.Invariant.{
  Inv, newest, IsFresh, initial-Inv, Reach-Inv, store_answer-SameView, set_service_name-SameView,
  schedule_cases, take_cases,
}

-- What has been announced, newest first, and what waits to be announced.
pub record Debouncer : Type 0 where
  pub announced : List Collection
  pub waiting : Option Collection

-- The collection announced last; before the first, the empty one.
abbrev pub current : List Collection → Collection
current [] = collect []
current (c ∷ cs) = c

-- A proposal replaces the one that waits, and is never the collection announced last; an
-- announcement is what waits, and nothing waits after it.
pub data Move (d : Debouncer) : Debouncer → Type 0 where
  quiet : Move d d
  withdraw : Move d (record d { waiting = none })
  propose : (c : Collection) → current d.announced ≢ c → Move d (record d { waiting = some c })
  announce :
      (c : Collection)
      → d.waiting ≡ some c
      → Move d (record { announced = c ∷ d.announced; waiting = none })

pub data Moves (d : Debouncer) : Debouncer → Type 0 where
  start : Moves d d
  more : {e f : Debouncer} → Moves d e → Move e f → Moves d f

abbrev collect_option : Option (List TcpAddress) → Option Collection
collect_option none = none
collect_option (some a) = some (collect a)

-- The debouncer that a system shows.
abbrev pub view : System → Debouncer
view s = record {
  announced = map collect s.taken;
  waiting = collect_option s.resolver.pending_addresses;
}

current-newest : (l : List (List TcpAddress)) → current (map collect l) ≡ collect (newest l)
current-newest [] = refl
current-newest (a ∷ l) = refl

-- Steps that change neither what was taken nor what is pending.
still :
    (s : System) {taken : List (List TcpAddress)} {pending : Option (List TcpAddress)}
    → taken ≡ s.taken
    → pending ≡ s.resolver.pending_addresses
    → Move (view s) (record { announced = map collect taken; waiting = collect_option pending })
still s same pending =
    subst (Move (view s))
      (λ i. record {
        announced = map collect (sym same i);
        waiting = collect_option (sym pending i);
      })
      quiet

schedule-Move :
    (s : System) (addresses : List TcpAddress) (rest : List (List TcpAddress))
    → lt_int (pos 0) s.resolver.debounce_duration ≡ true
    → Inv s
    → Move (view s) (
        view
          (record s { resolver = (schedule_address_update addresses s.resolver).0; found = rest }))
schedule-Move s addresses rest positive v =
    let (same, outcome) = schedule_cases addresses s.resolver positive in
    elim outcome [
      | inl cleared ↦
          subst (Move (view s))
            (λ i. record {
              announced = map collect s.taken;
              waiting = collect_option (sym cleared i);
            })
            withdraw
      | inr (armed, pending, other) ↦
          subst (Move (view s))
            (λ i. record {
              announced = map collect s.taken;
              waiting = collect_option (sym pending i);
            })
            (propose (collect addresses) (λ e.
              collect-ne s.resolver.last_addresses addresses other
                (ap collect v.last ∙ sym (current-newest s.taken) ∙ e)))
    ]

take-Move :
    (s : System) (n : ℕ)
    → Move (view s) (
        view (record s {
          resolver = (take_pending s.resolver).0;
          past_check = n;
          sending = optional (take_pending s.resolver).1 ++ s.sending;
          taken = optional (take_pending s.resolver).1 ++ s.taken;
        }))
take-Move s n = elim (take_cases s.resolver) [
  | inl (nothing, same) ↦
      still s (λ i. optional (same i).1 ++ s.taken) (λ i. (same i).0.pending_addresses)
  | inr (a, pending, out, last, cleared) ↦
      subst (Move (view s))
        (λ i. record {
          announced = map collect (optional (sym out i) ++ s.taken);
          waiting = collect_option (sym cleared i);
        })
        (announce (collect a) (ap collect_option pending))
]

Step-Move : {s t : System} → Inv s → Step s t → Move (view s) (view t)
Step-Move v (query idle running) = quiet
Step-Move {s} v (answer name rest a p) = still s refl (store_answer-SameView name a s.resolver).1
Step-Move {s} v (schedule addresses rest p positive) = schedule-Move s addresses rest positive v
Step-Move {s} v (rename name) = still s refl (set_service_name-SameView name s.resolver).1
Step-Move v (fire armed) = quiet
Step-Move v (give_up n e d) = quiet
Step-Move v (go_on n e d) = quiet
Step-Move {s} v (take n e) = take-Move s n
Step-Move v (send a rest p empty not_closed) = quiet
Step-Move v (drop a rest p d) = quiet
Step-Move v (send_closed a rest p c) = quiet
Step-Move v (receive a rest e) = quiet
Step-Move v (close_done d) = quiet
Step-Move v (stop_timer d) = quiet
Step-Move v (close_channel d c q f) = quiet

-- Refinement of an abstract debouncer. From a resolver that has published nothing and has nothing
-- pending, every interleaving of the discoveries, renamings, timers, publishes, the reader and Stop
-- shows, up to the order of addresses, a run of the debouncer from its empty state: a proposal
-- replaces the one that waits and is never the collection announced last, and only what waits is
-- announced, and that once.
pub Reach-Moves :
    {r : Resolver} {t : System}
    → IsFresh r
    → Reach (initial r) t
    → Moves (record { announced = []; waiting = none }) (view t)
Reach-Moves {r} fresh Reach.here =
    subst
      (λ o.
        Moves (record { announced = []; waiting = none })
          (record { announced = []; waiting = collect_option o }))
      (sym fresh.1) start
Reach-Moves {r} fresh (next reach st) =
    more (Reach-Moves fresh reach) (Step-Move (Reach-Inv (initial-Inv r fresh) reach) st)
