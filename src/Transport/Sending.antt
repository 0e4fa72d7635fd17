-- ===== src/Transport/Sending.antt =====
-- What `_send_all` puts on the wire.
use jetsocket.Prelude.{
  ℕ, zero, suc, List, [], ◌∷◌, ◌++◌, ◌≡◌, refl, ap, subst, ◌∙◌, take, drop, take-drop, append_assoc,
}
use jetsocket.Transport.Base.{Reply, waits, returns, raises}
use jetsocket.Transport.Socket.{Write, full, takes, would_block, broken, Sent, send_all}

-- All the octets if the call returned, and a first part of them if not.
abbrev pub Transmits : Reply (Unit {0}) → List ℕ → List ℕ → Type 0
Transmits (returns u) octets wire = wire ≡ octets
Transmits waits octets wire = (rest : List ℕ) × (wire ++ rest ≡ octets)
Transmits (raises error) octets wire = (rest : List ℕ) × (wire ++ rest ≡ octets)

abbrev pub IsTransmission : List ℕ → Sent → Type 0
IsTransmission octets s = Transmits s.reply octets s.wire

Transmits-after :
    (reply : Reply (Unit {0})) (first more wire : List ℕ)
    → Transmits reply more wire
    → Transmits reply (first ++ more) (first ++ wire)
Transmits-after (returns u) first more wire h = ap (λ (r : List ℕ). first ++ r) h
Transmits-after waits first more wire (rest, h) =
    (rest, append_assoc first wire rest ∙ ap (λ (r : List ℕ). first ++ r) h)
Transmits-after (raises error) first more wire (rest, h) =
    (rest, append_assoc first wire rest ∙ ap (λ (r : List ℕ). first ++ r) h)

-- Whatever the socket does, what `_send_all` has written when it returns is the data, whole and in
-- order; where it raises or still waits, it is a first part of the data.
pub send_all-IsTransmission :
    (writes : List Write) (octets : List ℕ) → IsTransmission octets (send_all writes octets)
unfolding send_all
send_all-IsTransmission writes [] = refl
send_all-IsTransmission [] (x ∷ octets) = (x ∷ octets, refl)
send_all-IsTransmission (full ∷ writes) (x ∷ octets) = (x ∷ octets, refl)
send_all-IsTransmission (takes zero ∷ writes) (x ∷ octets) = (x ∷ octets, refl)
send_all-IsTransmission (takes (suc n) ∷ writes) (x ∷ octets) =
    let rest : Sent = send_all writes (drop n octets) in
    subst (λ (o : List ℕ). Transmits rest.reply o (x ∷ take n octets ++ rest.wire))
      (ap (λ (o : List ℕ). x ∷ o) (take-drop n octets))
      (Transmits-after rest.reply (x ∷ take n octets) (drop n octets) rest.wire
        (send_all-IsTransmission writes (drop n octets)))
send_all-IsTransmission (would_block ∷ writes) (x ∷ octets) =
    send_all-IsTransmission writes (x ∷ octets)
send_all-IsTransmission (broken ∷ writes) (x ∷ octets) = (x ∷ octets, refl)
