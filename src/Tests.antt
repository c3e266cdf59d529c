-- ===== src/Tests.antt =====
-- The transport, the conversation ids and the client on concrete inputs.
use flare_core.Base.{
  some, ℕ, ◌*◌, ◌<◌, ◌≤◌, ◌≡◌, refl, true, false, ◌&&◌, ◌||◌, List, [], ◌∷◌, ◌++◌, none, arith,
  Text, length, max, text_eq, text_beq, nat_eq, leb, ok, replicate,
}
use flare_core.Base.Chars.{codes, len, len_utf8}
use flare_core.Framing.{
  ReadFailure, unexpected_eof, frame, read_length_prefixed, read_length_prefixed-frame,
}
use flare_core.Heartbeat.{
  HeartbeatConfig, config_default, with_nat_timeout, from_secs, least_of, effective_interval,
  effective_interval-nat, with_interval, effective_interval-with_interval,
  effective_interval-positive,
}
use flare_core.Client.{
  Transition, starts, connects, reconnects, sets, run, state_new, get_state, connect_duration,
  connect_duration-run, connecting, can_send, can_connect, connected, is_connecting,
  can_send-can_connect,
}
use flare_core.Conversation.{
  temp, ulid, random_u128, generate_temp_conversation_id, invalid, invalid_temp_length, single,
  group, ai, system, customer, channel, broadcast, is_base32, all, validate_conversation_id, valid,
  from_prefix, generate_single_chat_conversation_id, generate_group_conversation_id,
  generate_ai_conversation_id, generate_system_conversation_id, generate_customer_conversation_id,
  generate_channel_conversation_id, generate_broadcast_conversation_id,
}
use flare_core.Conversation.Laws.{
  is_panicked, is_wide, validate_conversation_id-panics, validate-generate,
}

abbrev at_end : ReadFailure
at_end = unexpected_eof (codes "early eof")

read_length_prefixed-frame_example :
    read_length_prefixed (record { available = frame (1 ∷ 2 ∷ []) ++ 9 ∷ []; failure = at_end })
    ≡ (record { available = 9 ∷ []; failure = at_end }, ok (1 ∷ 2 ∷ []))
read_length_prefixed-frame_example =
    read_length_prefixed-frame (1 ∷ 2 ∷ []) (9 ∷ []) at_end (omega arith)

abbrev config : HeartbeatConfig
config = with_nat_timeout config_default (from_secs 40)

effective_interval-nat_example :
    10 * effective_interval config ≤ max (7 * from_secs 40) (10 * least_of config)
unfolding with_nat_timeout config_default
effective_interval-nat_example =
    effective_interval-nat config (from_secs 40) refl refl (omega arith)

effective_interval-with_interval_example :
    effective_interval (with_interval config_default (from_secs 7)) ≡ from_secs 7
unfolding config_default
effective_interval-with_interval_example =
    effective_interval-with_interval config_default (from_secs 7) refl refl (omega arith)
      (omega arith)

effective_interval-positive_example : 0 < effective_interval config
effective_interval-positive_example = effective_interval-positive config

-- A client that connects, and sets the state once more by hand.
abbrev history : List Transition
history = starts 5 ∷ connects 9 ∷ reconnects 20 ∷ sets 25 connecting ∷ []

connect_duration-run_example :
    (get_state (run (state_new 1) history) ≡ connecting)
    × (connect_duration 32 (run (state_new 1) history) ≡ some 12)
connect_duration-run_example = connect_duration-run 1 32 history

can_send-can_connect_example :
    (can_send connected && can_connect connected ≡ false)
    × (is_connecting connected && (can_send connected || can_connect connected) ≡ false)
can_send-can_connect_example = can_send-can_connect connected

-- A hash and an encoding with the sizes of the real ones.
abbrev sha256 : Text → List ℕ
sha256 s = replicate 32 (len s)

abbrev base32 : List ℕ → Text
base32 bytes = replicate 16 48

sha256-length : (s : Text) → length (sha256 s) ≡ 32
sha256-length s = refl

base32-alphabet :
    (bytes : List ℕ)
    → length bytes ≡ 10
    → (len (base32 bytes) ≡ 16) × (all is_base32 (base32 bytes) ≡ true)
unfolding len is_base32 len_utf8
base32-alphabet bytes h = (refl, refl)

validate-generate_example :
    let a = codes "a" in
    let b = codes "b" in
    (validate_conversation_id (generate_single_chat_conversation_id sha256 base32 a b)
      ≡ valid single)
    × (validate_conversation_id (generate_group_conversation_id sha256 base32 a) ≡ valid group)
    × (validate_conversation_id (generate_ai_conversation_id sha256 base32 a b) ≡ valid ai)
    × (validate_conversation_id (generate_system_conversation_id sha256 base32 a none)
        ≡ valid system)
    × (validate_conversation_id (generate_customer_conversation_id sha256 base32 a b)
        ≡ valid customer)
    × (validate_conversation_id (generate_channel_conversation_id sha256 base32 a) ≡ valid channel)
    × (validate_conversation_id (generate_broadcast_conversation_id sha256 base32 a)
        ≡ valid broadcast)
    × (validate_conversation_id (generate_temp_conversation_id (ulid (replicate 26 48)))
        ≡ valid temp)
    × (validate_conversation_id (generate_temp_conversation_id (random_u128 255))
        ≡ invalid (invalid_temp_length 32))
unfolding len len_utf8
validate-generate_example =
    validate-generate sha256 base32 sha256-length base32-alphabet (codes "a") (codes "b")
      (replicate 26 48) none 255 refl

abbrev accented : Text
accented = 233 ∷ codes "A12"

validate_conversation_id-panics_example :
    is_panicked (validate_conversation_id accented) ≡ (leb 3 (len accented) && is_wide accented)
validate_conversation_id-panics_example = validate_conversation_id-panics accented

abbrev group_id : Text
group_id = codes "2A0123456789ABCDEF"

group_id-valid : validate_conversation_id group_id ≡ valid group
unfolding validate_conversation_id from_prefix len len_utf8 is_base32 text_beq
group_id-valid = refl
