-- ===== src/State/Same.antt =====
-- `==` on the connection states of jetsocket/state.py decides equality.
use jetsocket.Prelude.{◌≡◌, refl, true, false, [], ◌∷◌, arith}
use jetsocket.State.{
  ConnectionState, idle, connecting, connected, disconnecting, disconnected, reconnecting,
  backing_off, failed, closed, same_state, one_of, is_terminal,
}

pub same_state→≡ : (a b : ConnectionState) → same_state a b ≡ true → a ≡ b
same_state→≡ idle b h = ground arith
same_state→≡ connecting b h = ground arith
same_state→≡ connected b h = ground arith
same_state→≡ disconnecting b h = ground arith
same_state→≡ disconnected b h = ground arith
same_state→≡ reconnecting b h = ground arith
same_state→≡ backing_off b h = ground arith
same_state→≡ failed b h = ground arith
same_state→≡ closed b h = ground arith

pub same_state_refl : (a : ConnectionState) → same_state a a ≡ true
same_state_refl idle = refl
same_state_refl connecting = refl
same_state_refl connected = refl
same_state_refl disconnecting = refl
same_state_refl disconnected = refl
same_state_refl reconnecting = refl
same_state_refl backing_off = refl
same_state_refl failed = refl
same_state_refl closed = refl

-- A terminal state is none of the states in which `connect` starts.
pub terminal-idle :
    (a : ConnectionState) → is_terminal a ≡ true → one_of a (idle ∷ disconnected ∷ []) ≡ false
terminal-idle a h = ground arith
