-- ===== src/Buffer/Defs.antt =====
-- `BufferConfig`, `ReplayConfig` and `MessageBuffer` of jetsocket/buffer.py. `T` is the type of the
-- messages, which may be None, and `S` that of the sequence IDs. Capacities and windows are natural
-- numbers, so that the checks for a positive one refuse 0 alone; the modes and the policies are data
-- types, so that the checks for an unknown one are met by the type.
use jetsocket.Prelude.{
  ℕ, Bool, false, ◌||◌, ◌&&◌, Option, none, some, List, [], ◌∷◌, ◌++◌, length, ltb, ◌==◌, Eq,
  if◌then◌else◌,
}
use jetsocket.Exceptions.{Result, ok, err, value_error}
use jetsocket.Ring.Defs
use jetsocket.Ring.Defs.{RingBuffer, OverflowPolicy, Entry}

pub record BufferConfig : Type 0 where
  pub capacity : ℕ
  pub overflow_policy : OverflowPolicy
  pub enable_dedup : Bool
  pub dedup_window : ℕ

-- `BufferConfig.__post_init__`
unfoldable pub check_config : BufferConfig → Result (Unit {0})
check_config c =
    if c.capacity == 0
    then err value_error
    else if c.dedup_window == 0
    then err value_error
    else ok tt

pub data ReplayMode : Type 0 where
  sequence_id full_buffer no_replay : ReplayMode

-- The callbacks of a `ReplayConfig`: the extractor may raise, and `on_replay` is there or not.
pub record ReplayConfig {ℓ} (T S : Type ℓ) : Type ℓ where
  pub mode : ReplayMode
  pub sequence_extractor : Option (Option T → Result S)
  pub on_replay : Bool

-- `ReplayConfig.__post_init__`
unfoldable pub check_replay {ℓ} : {T S : Type ℓ} → ReplayConfig T S → Result (Unit {0})
check_replay c = elim c.mode [
  | sequence_id ↦ if c.on_replay then ok tt else err value_error
  | full_buffer ↦ ok tt
  | no_replay ↦ ok tt
]

pub record MessageBuffer {ℓ} (T S : Type ℓ) : Type ℓ where
  pub config : BufferConfig
  pub buffer : RingBuffer T S
  pub last_sequence_id : Option S
  pub seen_sequences : List S

-- `while len(seen) > window: seen.popitem(last=False)`
abbrev pub evict_over {ℓ} : {S : Type ℓ} → ℕ → List S → List S
evict_over window [] = []
evict_over window (s ∷ seen) =
    let rest = evict_over window seen in if ltb window (length (s ∷ seen)) then rest else s ∷ seen

module _ {ℓ} {S : Type ℓ} ⦃e : Eq S⦄ where
  -- `sequence_id in seen`
  abbrev pub contains : List S → S → Bool
  contains [] a = false
  contains (s ∷ seen) a = e.beq s a || contains seen a

  -- `del seen[sequence_id]`
  abbrev pub without : List S → S → List S
  without [] a = []
  without (s ∷ seen) a = if e.beq s a then seen else s ∷ without seen a

module _ {ℓ} {T S : Type ℓ} where
  unfoldable pub init : BufferConfig → MessageBuffer T S
  init config = record {
    config = config;
    buffer = Defs.init config.capacity config.overflow_policy;
    last_sequence_id = none;
    seen_sequences = [];
  }

  unfoldable pub pop : MessageBuffer T S → Option T × MessageBuffer T S
  pop b = let (item, r) = Defs.pop b.buffer in (item, record b { buffer = r })

  unfoldable pub drain : MessageBuffer T S → List T × MessageBuffer T S
  drain b = let (items, r) = Defs.drain b.buffer in (items, record b { buffer = r })

  unfoldable pub drain_with_sequences : MessageBuffer T S → List (Entry T S) × MessageBuffer T S
  drain_with_sequences b =
      let (items, r) = Defs.drain_with_sequences b.buffer in (items, record b { buffer = r })

  unfoldable pub clear : MessageBuffer T S → MessageBuffer T S
  clear b = record b { buffer = Defs.clear b.buffer }

  unfoldable pub clear_dedup : MessageBuffer T S → MessageBuffer T S
  clear_dedup b = record b { seen_sequences = [] }

  unfoldable pub reset : MessageBuffer T S → MessageBuffer T S
  unfolding clear clear_dedup
  reset b = record (clear_dedup (clear b)) { last_sequence_id = none }

  -- `return self._buffer.push(message, sequence_id)`
  unfoldable pub push_through :
      Option T → Option S → MessageBuffer T S → Result Bool × MessageBuffer T S
  push_through message s b =
      let (r, ring) = Defs.push message s b.buffer in (r, record b { buffer = ring })

module _ {ℓ} {T S : Type ℓ} ⦃e : Eq S⦄ where
  unfoldable pub is_duplicate : MessageBuffer T S → S → Bool
  is_duplicate b s = contains b.seen_sequences s

  -- `_track_sequence`
  unfoldable pub track_sequence : S → MessageBuffer T S → MessageBuffer T S
  track_sequence s b =
      let seen =
        if contains b.seen_sequences s then without b.seen_sequences s else b.seen_sequences in
      record b { seen_sequences = evict_over b.config.dedup_window (seen ++ (s ∷ [])) }

  -- What `push` notes of a sequence ID that is no duplicate.
  unfoldable pub note_sequence : S → MessageBuffer T S → MessageBuffer T S
  unfolding track_sequence
  note_sequence s b =
      let noted = record b { last_sequence_id = some s } in
      if b.config.enable_dedup then track_sequence s noted else noted

  unfoldable pub push : Option T → Option S → MessageBuffer T S → Result Bool × MessageBuffer T S
  unfolding is_duplicate note_sequence push_through
  push message none b = push_through message none b
  push message (some s) b =
      if b.config.enable_dedup && is_duplicate b s
      then (ok false, b)
      else push_through message (some s) (note_sequence s b)
