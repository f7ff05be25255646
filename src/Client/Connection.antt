-- ===== src/Client/Connection.antt =====
-- `ConnectionStateMachine` (src/core/connection-state.ts).
use nero_mpc_sdk.Base.{◌≡◌, refl, Bool, true, false, if◌then◌else◌, List, [], ◌∷◌, ◌⊎◌, inl, inr}

pub data ConnectionStatus : Type 0 where
  disconnected : ConnectionStatus
  connecting : ConnectionStatus
  connected : ConnectionStatus
  errored : ConnectionStatus

unfoldable pub same_status : ConnectionStatus → ConnectionStatus → Bool
same_status disconnected disconnected = true
same_status connecting connecting = true
same_status connected connected = true
same_status errored errored = true
same_status _ _ = false

unfoldable pub valid_transitions : ConnectionStatus → List ConnectionStatus
valid_transitions disconnected = connecting ∷ []
valid_transitions connecting = connected ∷ errored ∷ []
valid_transitions connected = disconnected ∷ errored ∷ []
valid_transitions errored = connecting ∷ disconnected ∷ []

unfoldable pub includes : List ConnectionStatus → ConnectionStatus → Bool
includes [] to = false
includes (s ∷ allowed) to =
    let rest = includes allowed to in if same_status s to then true else rest

-- The state afterwards and the answer.
unfoldable pub transition : ConnectionStatus → ConnectionStatus → ConnectionStatus × Bool
transition state to =
    if same_status state to
    then (state, true)
    else if includes (valid_transitions state) to
    then (to, true)
    else (state, false)

unfoldable pub reset : ConnectionStatus → ConnectionStatus
reset state = disconnected

-- The life cycle, drawn independently of the table.
pub data Edge : ConnectionStatus → ConnectionStatus → Type 0 where
  begin : Edge disconnected connecting
  retry : Edge errored connecting
  establish : Edge connecting connected
  fail : Edge connecting errored
  break : Edge connected errored
  close : Edge connected disconnected
  give_up : Edge errored disconnected

-- `transition` answers `true` and ends in the requested state if that is the present state or an edge
-- of the life cycle leads to it; otherwise it answers `false` and stays.
pub transition_lem :
    (s t : ConnectionStatus)
    → ((transition s t ≡ (t, true)) × ((s ≡ t) ⊎ Edge s t))
      ⊎ ((transition s t ≡ (s, false)) × (¬ (s ≡ t)) × (¬ (Edge s t)))
unfolding transition includes valid_transitions same_status
transition_lem disconnected disconnected = inl (refl, inl refl)
transition_lem disconnected connecting = inl (refl, inr Edge.begin)
transition_lem disconnected connected = inr (refl, λ e. cc, λ e. elim e [ ])
transition_lem disconnected errored = inr (refl, λ e. cc, λ e. elim e [ ])
transition_lem connecting disconnected = inr (refl, λ e. cc, λ e. elim e [ ])
transition_lem connecting connecting = inl (refl, inl refl)
transition_lem connecting connected = inl (refl, inr Edge.establish)
transition_lem connecting errored = inl (refl, inr Edge.fail)
transition_lem connected disconnected = inl (refl, inr Edge.close)
transition_lem connected connecting = inr (refl, λ e. cc, λ e. elim e [ ])
transition_lem connected connected = inl (refl, inl refl)
transition_lem connected errored = inl (refl, inr Edge.break)
transition_lem errored disconnected = inl (refl, inr Edge.give_up)
transition_lem errored connecting = inl (refl, inr Edge.retry)
transition_lem errored connected = inr (refl, λ e. cc, λ e. elim e [ ])
transition_lem errored errored = inl (refl, inl refl)

-- The state after a list of requests.
unfoldable pub run : ConnectionStatus → List ConnectionStatus → ConnectionStatus
run state [] = state
run state (to ∷ requests) = run (transition state to).0 requests

unfoldable pub requested : ConnectionStatus → List ConnectionStatus → Bool
requested status requests = includes requests status

later :
    (s : ConnectionStatus) (requests : List ConnectionStatus)
    → requested connecting requests ≡ true
    → requested connecting (s ∷ requests) ≡ true
unfolding requested includes same_status
later disconnected requests h = h
later connecting requests h = refl
later connected requests h = h
later errored requests h = h

-- From the states before `connecting`, `connected` is reached only by way of it.
by_connecting :
    (s : ConnectionStatus) (requests : List ConnectionStatus)
    → (s ≡ disconnected) ⊎ (s ≡ errored)
    → run s requests ≡ connected
    → requested connecting requests ≡ true
unfolding run transition includes valid_transitions same_status
by_connecting disconnected [] o h = cc
by_connecting disconnected (disconnected ∷ rs) o h =
    later disconnected rs (by_connecting disconnected rs o h)
by_connecting disconnected (connecting ∷ rs) o h = unfold requested in refl
by_connecting disconnected (connected ∷ rs) o h =
    later connected rs (by_connecting disconnected rs o h)
by_connecting disconnected (errored ∷ rs) o h = later errored rs (by_connecting disconnected rs o h)
by_connecting errored [] o h = cc
by_connecting errored (disconnected ∷ rs) o h =
    later disconnected rs (by_connecting disconnected rs (inl refl) h)
by_connecting errored (connecting ∷ rs) o h = unfold requested in refl
by_connecting errored (connected ∷ rs) o h = later connected rs (by_connecting errored rs o h)
by_connecting errored (errored ∷ rs) o h = later errored rs (by_connecting errored rs o h)
by_connecting connecting rs (inl e) h = cc
by_connecting connecting rs (inr e) h = cc
by_connecting connected rs (inl e) h = cc
by_connecting connected rs (inr e) h = cc

-- A machine in its initial state that has reached `connected` was asked for `connecting` before,
-- whatever else it was asked for.
pub connected_after_connecting :
    (requests : List ConnectionStatus)
    → run disconnected requests ≡ connected
    → requested connecting requests ≡ true
connected_after_connecting requests h = by_connecting disconnected requests (inl refl) h
