-- ===== src/BodyLimit.antt =====
-- src/iceberg/auth/body_limit.py: the ceiling on the body of a request, as a machine on ASGI messages.
-- The wrapped application is any sequence of the calls that it makes.
pub mod Guarded
mod Tests
use iceberg_cti.Base.{
  ltb, str_eq, zero, suc, [], ◌∷◌, refl, arith, inl, inr, some, none, ok, err, true, false, nat_eq,
  string_eq, ◌>>=◌, ◌>>◌, ◌≡◌, ◌≢◌, ◌≤◌, ◌<◌, ◌↔◌, ◌⊎◌, ◌+◌, ◌++◌, ◌&&◌, ◌||◌, ◌==◌, not,
  if◌then◌else◌, Bool, List, Option, ℕ, String, Result, All, map, select, elem, Bool-cases,
  Option-cases, Result-cases,
}

-- A message from the client, and one to the client.
pub data Incoming : Type 0 where
  request : ℕ → Incoming
  disconnect : Incoming

pub data Outgoing : Type 0 where
  response_start : ℕ → Outgoing
  response_body : String → Outgoing

-- The calls of the application: `receive_guarded`, with the message that arrives, and `send_tracked`.
pub data Call : Type 0 where
  receiving : Incoming → Call
  sending : Outgoing → Call

-- How the application ends: it returns, lets `_BodyTooLarge` through, or raises something else.
pub data Ending : Type 0 where
  returned too_large other_error : Ending

-- The variables of `__call__`; `passed` counts the bytes handed to the application.
pub record Guard : Type 0 where
  pub seen : ℕ
  pub overflowed : Bool
  pub started : Bool
  pub rejected : Bool
  pub passed : ℕ
  pub sent : List Outgoing

-- `_reject`
abbrev pub rejection : List Outgoing
rejection =
    Outgoing.response_start 413
    ∷ Outgoing.response_body "{\"detail\":\"Request body too large\"}"
    ∷ []

abbrev pub initial : Guard
initial = record {
  seen = 0;
  overflowed = false;
  started = false;
  rejected = false;
  passed = 0;
  sent = [];
}

unfoldable pub receive_guarded : ℕ → Guard → Incoming → Guard
receive_guarded max_bytes g Incoming.disconnect = g
receive_guarded max_bytes g (Incoming.request n) =
    let seen = g.seen + n in
    if ltb max_bytes seen
    then record g { seen = seen; overflowed = true }
    else record g { seen = seen; passed = g.passed + n }

abbrev pub is_start : Outgoing → Bool
is_start (Outgoing.response_start status) = true
is_start (Outgoing.response_body text) = false

unfoldable pub send_tracked : Guard → Outgoing → Guard
send_tracked g message =
    if g.rejected
    then g
    else if is_start message && g.overflowed
    then record g { rejected = true; started = true; sent = g.sent ++ rejection }
    else record g { started = g.started || is_start message; sent = g.sent ++ (message ∷ []) }

unfoldable pub handle : ℕ → Guard → Call → Guard
unfolding receive_guarded send_tracked
handle max_bytes g (Call.receiving message) = receive_guarded max_bytes g message
handle max_bytes g (Call.sending message) = send_tracked g message

unfoldable pub handle_all : ℕ → Guard → List Call → Guard
handle_all max_bytes g [] = g
handle_all max_bytes g (c ∷ calls) = handle_all max_bytes (handle max_bytes g c) calls

-- The `except` clause.
abbrev pub finish : Guard → Ending → Guard
finish g Ending.too_large = if g.started then g else record g { sent = g.sent ++ rejection }
finish g _ = g

-- `_declared_length`; `parse` is `int` of the header, where it is a natural number.
unfoldable pub declared_length : (String → Option ℕ) → List (String × String) → Option ℕ
declared_length parse [] = none
declared_length parse ((name, value) ∷ headers) =
    let rest = declared_length parse headers in
    if str_eq name "content-length" then parse value else rest

abbrev pub exceeds : Option ℕ → ℕ → Bool
exceeds none limit = false
exceeds (some n) limit = ltb limit n

-- `__call__` on an HTTP request with the guard on: what the client is sent.
unfoldable pub serve :
    (String → Option ℕ) → ℕ → List (String × String) → List Call → Ending → List Outgoing
unfolding handle handle_all declared_length
serve parse max_bytes headers calls ending =
    if exceeds (declared_length parse headers) max_bytes
    then rejection
    else (finish (handle_all max_bytes initial calls) ending).sent
