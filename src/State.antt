-- ===== src/State.antt =====
-- jetsocket/state.py: the connection states and the table of valid transitions.
pub mod Same
use jetsocket.Prelude.{Bool, true, false, List, [], ◌∷◌, ◌||◌}

-- `ConnectionState`.
pub data ConnectionState : Type 0 where
  idle connecting connected disconnecting disconnected : ConnectionState
  reconnecting backing_off failed closed : ConnectionState

-- `==` on the members of the enumeration.
abbrev pub same_state : ConnectionState → ConnectionState → Bool
same_state idle idle = true
same_state connecting connecting = true
same_state connected connected = true
same_state disconnecting disconnecting = true
same_state disconnected disconnected = true
same_state reconnecting reconnecting = true
same_state backing_off backing_off = true
same_state failed failed = true
same_state closed closed = true
same_state _ _ = false

-- `x in (...)`.
abbrev pub one_of : ConnectionState → List ConnectionState → Bool
one_of s [] = false
one_of s (t ∷ ts) = same_state s t || one_of s ts

abbrev pub is_active : ConnectionState → Bool
is_active s = one_of s (connecting ∷ connected ∷ [])

abbrev pub is_terminal : ConnectionState → Bool
is_terminal s = one_of s (failed ∷ closed ∷ [])

abbrev pub can_send : ConnectionState → Bool
can_send s = same_state s connected

abbrev pub can_reconnect : ConnectionState → Bool
can_reconnect s = one_of s (disconnected ∷ reconnecting ∷ backing_off ∷ [])

-- `VALID_TRANSITIONS`.
abbrev pub valid_transitions : ConnectionState → List ConnectionState
valid_transitions idle = connecting ∷ []
valid_transitions connecting = connected ∷ backing_off ∷ failed ∷ []
valid_transitions connected = disconnecting ∷ disconnected ∷ reconnecting ∷ []
valid_transitions disconnecting = disconnected ∷ closed ∷ []
valid_transitions disconnected = reconnecting ∷ closed ∷ []
valid_transitions reconnecting = backing_off ∷ connecting ∷ failed ∷ []
valid_transitions backing_off = connecting ∷ failed ∷ closed ∷ []
valid_transitions failed = []
valid_transitions closed = []

unfoldable pub is_valid_transition : ConnectionState → ConnectionState → Bool
is_valid_transition from to = one_of to (valid_transitions from)
