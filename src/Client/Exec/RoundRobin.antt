-- ===== src/Client/Exec/RoundRobin.antt =====
-- The round robin of Publish.
use courier_go.Base.{
  ℕ, suc, ◌+◌, ◌-◌, ◌*◌, ◌%◌, ◌^◌, ◌≤◌, ◌<◌, false, some, List, [], ◌∷◌, ◌++◌, ◌≡◌, ap, sym, ◌∙◌,
  arith, length, get_elem?, get_elem?_total, subst, length-take, take-append-drop, ◌/◌, take, drop,
  take-drop-suc, take_all, length-drop, lt→ltb, ◌==◌, append-nil,
}
use native.Mathlib.Nat.{mod-lt, add-zero, div-add-mod'}
use courier_go.Libs.{Libs}
use courier_go.Paho.{MqttClient, Context, Broker}
use courier_go.Client.{Client, invoke_client_id_callback}
use courier_go.Client.Exec.{
  Call, returned, exec_one_round_robin, Executed, run_round_robin, run_one, nth, index_of,
  exec_multi_conn, execute,
}
use courier_go.Client.Exec.Laws.{IsMulti, execute-multi}

index_of_small : (k n : ℕ) → k < 2 ^ 63 → index_of k n ≡ some (k % n)
unfolding index_of
index_of_small k n h = rw (lt→ltb k (2 ^ 63) h)

length_of_get_elem? {ℓ} :
    {A : Type ℓ} (xs : List A) (i : ℕ) (x : A) → get_elem? xs i ≡ some x → (length xs == 0) ≡ false
length_of_get_elem? [] i x e = cc
length_of_get_elem? (y ∷ ys) i x e = ground arith

mod_at : (q n i : ℕ) → i < n → (q * n + i) % n ≡ i
mod_at q n i h = grind arith

counter_of_small : (k : ℕ) → k < 2 ^ 63 → (k + 1) % 2 ^ 64 ≡ k + 1
counter_of_small k h = omega arith

module _ ⦃libs : Libs⦄ where
  -- One round robin call of the function `f` on the connection `m`.
  abbrev pub one_call : Client → Context → Call → MqttClient → Executed
  one_call c ctx f m = record {
    client = record c { rr_counter = c.rr_counter + 1 };
    calls = m ∷ [];
    notified = invoke_client_id_callback ctx m.client_id;
    outcome = returned (f m);
  }

  -- With several connections, and a counter below 2^63, a round robin call runs on exactly the
  -- connection at the counter modulo their number, tells its ID to the callback of the context,
  -- returns what the function returned, and advances the counter by one.
  pub execute-exec_one_round_robin :
      (c : Client) (ctx : Context) (b : Broker) (f : Call) (m : MqttClient)
      → IsMulti c
      → c.rr_counter < 2 ^ 63
      → get_elem? c.ordered_clients (c.rr_counter % length c.ordered_clients) ≡ some m
      → execute c ctx b f exec_one_round_robin ≡ one_call c ctx f m
  unfolding exec_multi_conn
  execute-exec_one_round_robin c ctx b f m h small e =
      execute-multi c ctx b f exec_one_round_robin h
      ∙ unfold run_round_robin run_one nth in
        rw (
          length_of_get_elem? c.ordered_clients _ m e,
          index_of_small c.rr_counter _ small,
          e,
          counter_of_small c.rr_counter small,
        )

  -- A publish as the client sees it: its context, what the environment answers, and the call.
  abbrev pub Request : Type 0
  Request = Context × Broker × Call

  -- The connections that successive round robin calls run on.
  abbrev pub run_requests : Client → List Request → List MqttClient
  run_requests c [] = []
  run_requests c ((ctx, b, f) ∷ rs) =
      let e = execute c ctx b f exec_one_round_robin in e.calls ++ run_requests e.client rs

  abbrev at_counter : Client → ℕ → Client
  at_counter c k = record c { rr_counter = k }

  abbrev size : Client → ℕ
  size c = length c.ordered_clients

  -- A call at position p of the list.
  request_at :
      (c : Client) (q p : ℕ) (ctx : Context) (b : Broker) (f : Call) (m : MqttClient)
      → IsMulti c
      → q * size c + p < 2 ^ 63
      → p < size c
      → get_elem? c.ordered_clients p ≡ some m
      → execute (at_counter c (q * size c + p)) ctx b f exec_one_round_robin
        ≡ one_call (at_counter c (q * size c + p)) ctx f m
  request_at c q p ctx b f m h small inside found =
      execute-exec_one_round_robin (at_counter c (q * size c + p)) ctx b f m h small
        (rw (mod_at q (size c) p inside) found)

  -- From position p, calls that do not pass the end of the list, and what comes after them.
  run_requests-append :
      (c : Client) (rs ts : List Request) (q p : ℕ)
      → IsMulti c
      → q * size c + p + length rs ≤ 2 ^ 63
      → p + length rs ≤ size c
      → run_requests (at_counter c (q * size c + p)) (rs ++ ts)
        ≡ take (length rs) (drop p c.ordered_clients)
          ++ run_requests (at_counter c (q * size c + p + length rs)) ts
  run_requests-append c [] ts q p h small fits =
      ap (λ k. run_requests (at_counter c k) ts) (sym (add-zero _))
  run_requests-append c ((ctx, b, f) ∷ rs) ts q p h small fits =
      let (m, found) = get_elem?_total c.ordered_clients p (omega arith) in
      let step = request_at c q p ctx b f m h (omega arith) (omega arith) found in
      let next : q * size c + suc p ≡ q * size c + p + 1 = omega arith in
      let last : q * size c + suc p + length rs ≡ q * size c + p + suc (length rs) = omega arith in
      let rest =
        subst
          (λ k.
            run_requests (at_counter c k) (rs ++ ts)
            ≡ take (length rs) (drop (suc p) c.ordered_clients)
              ++ run_requests (at_counter c (q * size c + p + suc (length rs))) ts)
          next
          (run_requests-append c rs ts q (suc p) h (omega arith) (omega arith)
            ∙ ap
                (λ k.
                  take (length rs) (drop (suc p) c.ordered_clients)
                  ++ run_requests (at_counter c k) ts)
                last) in
      ap (λ (x : Executed). x.calls ++ run_requests x.client (rs ++ ts)) step
      ∙ ap (λ l. m ∷ l) rest
      ∙ ap (λ l. l ++ run_requests (at_counter c (q * size c + p + suc (length rs))) ts)
          (sym (take-drop-suc c.ordered_clients p (length rs) m found))

  run_requests_segment :
      (c : Client) (rs : List Request) (q p : ℕ)
      → IsMulti c
      → q * size c + p + length rs ≤ 2 ^ 63
      → p + length rs ≤ size c
      → run_requests (at_counter c (q * size c + p)) rs
        ≡ take (length rs) (drop p c.ordered_clients)
  run_requests_segment c rs q p h small fits =
      ap (run_requests (at_counter c (q * size c + p))) (sym (append-nil rs))
      ∙ run_requests-append c rs [] q p h small fits
      ∙ append-nil _

  -- One round that starts at position p.
  run_requests_round :
      (c : Client) (rs ts : List Request) (q p : ℕ)
      → IsMulti c
      → q * size c + p + size c ≤ 2 ^ 63
      → p + length rs ≡ size c
      → length ts ≡ p
      → run_requests (at_counter c (q * size c + p)) (rs ++ ts)
        ≡ drop p c.ordered_clients ++ take p c.ordered_clients
  run_requests_round c rs ts q p h small fits rest =
      let turn : q * size c + p + length rs ≡ suc q * size c + 0 = omega arith in
      run_requests-append c rs ts q p h (omega arith) (omega arith)
      ∙ ap (λ l. l ++ run_requests (at_counter c (q * size c + p + length rs)) ts)
          (take_all (drop p c.ordered_clients) (length rs)
            (omega (arith, length-drop c.ordered_clients p)))
      ∙ ap (λ k. drop p c.ordered_clients ++ run_requests (at_counter c k) ts) turn
      ∙ ap (λ l. drop p c.ordered_clients ++ l)
          (run_requests_segment c ts (suc q) 0 h (omega arith) (omega arith)
            ∙ ap (λ n. take n c.ordered_clients) rest)

  -- With several connections, as many round robin calls in a row as there are connections run on every connection exactly
  -- once, in their order, beginning at the counter modulo their number, as long as the counter
  -- stays below 2^63.
  pub run_requests_fair :
      (c : Client) (rs : List Request)
      → IsMulti c
      → 0 < length c.ordered_clients
      → c.rr_counter + length c.ordered_clients ≤ 2 ^ 63
      → length rs ≡ length c.ordered_clients
      → run_requests c rs
        ≡ drop (c.rr_counter % length c.ordered_clients) c.ordered_clients
          ++ take (c.rr_counter % length c.ordered_clients) c.ordered_clients
  run_requests_fair c rs h some_client small same =
      let n = length c.ordered_clients in
      let p = c.rr_counter % n in
      let q = c.rr_counter / n in
      let below = mod-lt c.rr_counter some_client in
      let here = div-add-mod' c.rr_counter n in
      let cut = length-take (n - p) rs (omega arith) in
      ap (λ k. run_requests (at_counter c k) rs) (sym here)
      ∙ ap (run_requests (at_counter c (q * n + p))) (sym (take-append-drop (n - p) rs))
      ∙ run_requests_round c (take (n - p) rs) (drop (n - p) rs) q p h (omega arith) (omega arith)
          (omega (arith, length-drop rs (n - p)))
