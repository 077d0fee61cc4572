-- ===== src/Client/Reload/Connect.antt =====
-- How newClient goes through its addresses.
use courier_go.Base.{
  ℕ, zero, suc, ◌+◌, ◌%◌, ◌<◌, ◌≤◌, Bool, true, false, none, some, List, length, get_elem?,
  get_elem?_total, sym, ◌≡◌, ◌∙◌, refl, arith, subst, ◌⊎◌, inl, inr,
}
use courier_go.Address.{TcpAddress}
use courier_go.Libs.{Libs}
use courier_go.Paho.{Broker}
use courier_go.Paho.Setup.{Host}
use courier_go.Client.{Client}
use courier_go.Client.Exec.{nth}
use courier_go.Client.Reload.{connected, unfinished, is_good, single_client, connect_in_turn}

mod_lt : (i n : ℕ) → 0 < n → i % n < n
mod_lt i n h = omega arith

le_cases : (i n : ℕ) → i ≤ n → (i ≡ n) ⊎ (i < n)
le_cases i n h = omega arith

module _ ⦃libs : Libs⦄ (host : Host) (brokers : ℕ → Broker) (c : Client)
    (addrs : List TcpAddress) where
  -- Round i connects to its address.
  abbrev pub succeeds : ℕ → Bool
  succeeds i = elim (get_elem? addrs (i % length addrs)) [
    | none ↦ false
    | some a ↦ is_good ((brokers i).connect (single_client host (brokers i) c a))
  ]

  retry :
      (rounds i : ℕ)
      → 0 < length addrs
      → succeeds i ≡ false
      → (a : TcpAddress) × (get_elem? addrs (i % length addrs) ≡ some a)
      → connect_in_turn host brokers c addrs (suc rounds) i
        ≡ connect_in_turn host brokers c addrs rounds (i + 1)
  unfolding connect_in_turn nth
  retry rounds i some_address bad (a, here) = ground (arith, here, bad)

  done :
      (rounds i : ℕ) (a : TcpAddress)
      → 0 < length addrs
      → get_elem? addrs (i % length addrs) ≡ some a
      → succeeds i ≡ true
      → connect_in_turn host brokers c addrs (suc rounds) i
        ≡ connected (single_client host (brokers i) c a)
  unfolding connect_in_turn nth
  done rounds i a some_address here good = ground (arith, here, good)

  address_of_round :
      (i : ℕ) → 0 < length addrs → (a : TcpAddress) × (get_elem? addrs (i % length addrs) ≡ some a)
  address_of_round i h = get_elem?_total addrs (i % length addrs) (mod_lt i (length addrs) h)

  from_round :
      (rounds i n : ℕ) (a : TcpAddress)
      → i ≤ n
      → n < i + rounds
      → ((j : ℕ) → i ≤ j → j < n → succeeds j ≡ false)
      → get_elem? addrs (n % length addrs) ≡ some a
      → succeeds n ≡ true
      → 0 < length addrs
      → connect_in_turn host brokers c addrs rounds i
        ≡ connected (single_client host (brokers n) c a)
  from_round zero i n a from enough bad here good h = absurd (omega arith)
  from_round (suc rounds) i n a from enough bad here good h = elim (le_cases i n from) [
    | inl same ↦
        subst
          (λ j.
            connect_in_turn host brokers c addrs (suc rounds) j
            ≡ connected (single_client host (brokers n) c a))
          (sym same) (done rounds n a h here good)
    | inr less ↦
        retry rounds i h (bad i (omega arith) less) (address_of_round i h)
        ∙ from_round rounds (i + 1) n a (omega arith) (omega arith) (λ j l. bad j (omega arith))
            here good h
  ]

  -- newClient takes the addresses of a list that is not empty in turn, from the first on and around
  -- the end of the list. If round n is the first whose connect succeeds, newClient ends after n + 1
  -- rounds with the client of that round, made for the address at n modulo the number of addresses.
  pub connect_in_turn_first :
      (rounds n : ℕ) (a : TcpAddress)
      → n < rounds
      → ((j : ℕ) → j < n → succeeds j ≡ false)
      → get_elem? addrs (n % length addrs) ≡ some a
      → succeeds n ≡ true
      → 0 < length addrs
      → connect_in_turn host brokers c addrs rounds 0
        ≡ connected (single_client host (brokers n) c a)
  connect_in_turn_first rounds n a enough bad here good h =
      from_round rounds 0 n a (omega arith) (omega arith) (λ j l. bad j) here good h

  never_from :
      (rounds i : ℕ)
      → 0 < length addrs
      → ((j : ℕ) → succeeds j ≡ false)
      → connect_in_turn host brokers c addrs rounds i ≡ unfinished
  unfolding connect_in_turn
  never_from zero i h bad = refl
  never_from (suc rounds) i h bad =
      retry rounds i h (bad i) (address_of_round i h) ∙ never_from rounds (i + 1) h bad

  -- newClient with a list that is not empty does not end when no connect ever succeeds: it is
  -- unfinished after every number of rounds.
  pub connect_in_turn_never :
      (rounds : ℕ)
      → 0 < length addrs
      → ((j : ℕ) → succeeds j ≡ false)
      → connect_in_turn host brokers c addrs rounds 0 ≡ unfinished
  connect_in_turn_never rounds h bad = never_from rounds 0 h bad
