-- ===== src/Start/Wait.antt =====
-- What WaitForConnection answers.
use courier_go.Base.{Bool, true, false, if◌then◌else◌, none, some, List, [], ◌∷◌, ◌++◌, ◌≡◌, refl}
use courier_go.Start.{WaitEvent, expired, tick, answer, wait_loop, wait_for_connection}

-- A tick and the answer to its question are next.
abbrev pub polls : List Bool → List WaitEvent
polls [] = []
polls (v ∷ vs) = tick ∷ answer v ∷ polls vs

abbrev pub is_any : List Bool → Bool
is_any [] = false
is_any (true ∷ vs) = true
is_any (false ∷ vs) = is_any vs

-- WaitForConnection asks once for each tick. When the time is over after some answers, what it
-- returns is whether one of them was that the client is connected; before that it does not return
-- false.
pub wait_for_connection-polls :
    (vs : List Bool) (later : List WaitEvent)
    → (wait_for_connection (polls vs ++ (expired ∷ later)) ≡ some (is_any vs))
      × (wait_for_connection (polls vs) ≡ (if is_any vs then some true else none))
unfolding wait_for_connection wait_loop
wait_for_connection-polls [] later = (refl, refl)
wait_for_connection-polls (true ∷ vs) later = (refl, refl)
wait_for_connection-polls (false ∷ vs) later = wait_for_connection-polls vs later
