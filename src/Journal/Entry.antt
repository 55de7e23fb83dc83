-- ===== src/Journal/Entry.antt =====
-- One entry of drop/journal.py: its fields, what may be written, and who may claim it.
use hermes_drop.Base.{
  ℕ, suc, zero, ◌+◌, ◌/◌, ◌%◌, Bool, true, false, not, ◌&&◌, ◌||◌, Option, none, some, List, [],
  ◌∷◌, ◌++◌, if◌then◌else◌, Eq, ◌==◌, contains, option_eq, string_eq, nat_eq, ltb, leb, any,
}
use native.Mathlib.Decide.{ℕ_discrete}
use hermes_drop.Base.{Text, text_eq, codes}
use hermes_drop.Base.Dict
use hermes_drop.Base.Dict.{Dict}
use hermes_drop.Routing.{RoutingTuple, routing_eq}

-- A key of an entry: the closed allowlist, and any other.
pub data Key : Type 0 where
  drop_id state platform profile chat_id thread_id user_id session_key message_id purpose : Key
  created_at updated_at expires_at_ms ttl_seconds announced_at announce_attempts claimed_at : Key
  edit_failed notice_received notice_expired payload_kind : Key
  unlisted : Text → Key

Key-discrete : Discrete Key
Key-discrete = hlevel ℕ_discrete

instance unfoldable pub key_eq : Eq Key
unfolding Key-discrete ℕ_discrete
key_eq = record { dec = Key-discrete }

-- `ALLOWED_FIELDS`
unfoldable pub is_allowed : Key → Bool
is_allowed (unlisted name) = false
is_allowed _ = true

-- What JSON holds in a field; `composite` is a list or an object, given by its `str`. Numbers are
-- natural, and small enough for a float: the times and counts that the journal keeps.
pub data Value : Type 0 where
  null : Value
  flag : Bool → Value
  number : ℕ → Value
  string : Text → Value
  composite : Text → Value

abbrev pub Entry : Type 0
Entry = Dict Key Value

abbrev pub waiting : Text
waiting = codes "waiting"

abbrev pub received : Text
received = codes "received"

abbrev pub expired : Text
expired = codes "expired"

abbrev pub transport_failed : Text
transport_failed = codes "transport_failed"

abbrev pub terminal_states : List Text
terminal_states = received ∷ expired ∷ transport_failed ∷ []

-- `entry.get(key)`
abbrev pub get : Key → Entry → Value
get k e = elim (Dict.lookup k e) [ none ↦ null | some v ↦ v ]

-- A list or an object: Python's `in` a set raises `TypeError` for it.
abbrev pub is_unhashable : Value → Bool
is_unhashable (composite s) = true
is_unhashable _ = false

-- `entry.get("state") in TERMINAL_STATES`, for a value that `is_unhashable` is false of: the
-- callers test that first, but for the validation, where raising is a rejection like any other.
unfoldable pub is_terminal : Value → Bool
unfolding text_eq
is_terminal (string s) = contains terminal_states s
is_terminal _ = false

unfoldable pub is_state : Text → Value → Bool
unfolding text_eq
is_state s (string t) = t == s
is_state s _ = false

-- `value is not None`
abbrev pub is_set : Value → Bool
is_set null = false
is_set _ = true

-- `str(n)`: the digits of a number; every round divides by ten, so `n + 1` rounds are enough.
unfoldable pub decimal : (fuel n : ℕ) → Text
decimal zero n = []
decimal (suc fuel) n =
    let front = decimal fuel (n / 10) in
    if ltb n 10 then (b'0' + n) ∷ [] else front ++ ((b'0' + n % 10) ∷ [])

-- `_text`
unfoldable pub text_of : Value → Text
unfolding decimal
text_of null = []
text_of (flag b) = if b then codes "True" else codes "False"
text_of (number n) = decimal (n + 1) n
text_of (string s) = s
text_of (composite s) = s

-- `_DROP_ID_RE.match`: eight to sixty-four characters of the class, and, as `$` allows, one line
-- feed behind them.
abbrev pub is_id_char : ℕ → Bool
is_id_char c =
    (leb b'A' c && leb c b'Z')
    || ((leb b'a' c && leb c b'z') || ((leb b'0' c && leb c b'9') || (c == b'_' || c == b'-')))

unfoldable pub id_chars : Text → ℕ → Bool
unfolding nat_eq
id_chars [] n = leb 8 n && leb n 64
id_chars (c ∷ []) n =
    if is_id_char c then leb 8 (n + 1) && leb (n + 1) 64 else c == 10 && (leb 8 n && leb n 64)
id_chars (c ∷ d ∷ cs) n = is_id_char c && id_chars (d ∷ cs) (n + 1)

unfoldable pub is_drop_id : Value → Bool
unfolding id_chars
is_drop_id (string s) = id_chars s 0
is_drop_id _ = false

-- `_URLISH.search`: a letter, characters of a scheme, and `://`, anywhere in the text.
abbrev is_letter : ℕ → Bool
is_letter c = (leb b'A' c && leb c b'Z') || (leb b'a' c && leb c b'z')

abbrev is_scheme_char : ℕ → Bool
is_scheme_char c =
    is_letter c || ((leb b'0' c && leb c b'9') || (c == b'+' || (c == b'.' || c == b'-')))

abbrev is_separator : Text → Bool
is_separator (a ∷ b ∷ c ∷ rest) = a == b':' && (b == b'/' && c == b'/')
is_separator _ = false

unfoldable pub scheme_then_separator : Text → Bool
unfolding nat_eq
scheme_then_separator [] = false
scheme_then_separator (c ∷ cs) =
    is_separator (c ∷ cs) || (is_scheme_char c && scheme_then_separator cs)

unfoldable pub is_urlish : Text → Bool
unfolding scheme_then_separator
is_urlish [] = false
is_urlish (c ∷ cs) = (is_letter c && scheme_then_separator cs) || is_urlish cs

unfoldable pub is_smuggler : Value → Bool
is_smuggler (string s) = is_urlish s
is_smuggler _ = false

pub data JournalRejected : Type 0 where
  unknown_field url_shaped bad_drop_id unknown_state : JournalRejected

-- A state that is no text is not a known one (a list or an object makes Python raise instead).
abbrev pub is_known_state : Value → Bool
is_known_state v = is_state waiting v || is_terminal v

-- `_validate_entry`: the first check that fails, in the source's order.
unfoldable pub validate_entry : Entry → Option JournalRejected
validate_entry e =
    if any (λ (k, v). not (is_allowed k)) e
    then some unknown_field
    else if any (λ (k, v). is_smuggler v) e
    then some url_shaped
    else if not (is_drop_id (get drop_id e))
    then some bad_drop_id
    else if not (is_known_state (get state e))
    then some unknown_state
    else none

unfoldable pub routing_tuple_of : Entry → RoutingTuple
routing_tuple_of e = record {
  platform = text_of (get platform e);
  profile = text_of (get profile e);
  chat_id = text_of (get chat_id e);
  thread_id = text_of (get thread_id e);
}

-- The caller: the routing tuple of its origin, and the user of its source.
pub record Caller : Type 0 where
  pub lane : RoutingTuple
  pub user : Text

-- `claim_tuple_of` and `claim_tuple_for_origin`, compared.
unfoldable pub same_claim : Entry → Caller → Bool
same_claim e c = routing_tuple_of e == c.lane && text_of (get user_id e) == c.user

pub data ClaimRefusal : Type 0 where
  unavailable not_authorized not_ready : ClaimRefusal

unfoldable pub authorize_claim : Option Entry → Caller → Option ClaimRefusal
unfolding same_claim
authorize_claim none c = some unavailable
authorize_claim (some e) c =
    if not (same_claim e c)
    then some not_authorized
    else if is_set (get claimed_at e)
    then some unavailable
    else if is_state received (get state e)
    then none
    else if is_state waiting (get state e)
    then some not_ready
    else some unavailable
