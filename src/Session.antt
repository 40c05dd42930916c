-- ===== src/Session.antt =====
-- src/session_manager/session_manager.c: sessionManager_methodHandler and the two globals it keeps.
-- A session id is an int32 bit pattern, 0 for no session. `in_params` is the number in the first
-- property of the call, if there is one; that the property is an int32, which rbusValue_GetInt32
-- asserts, is taken for granted. What rbusEvent_Publish returns is only logged.
pub mod Exclusion
mod Tests
use Prim.Native.String.{String}
use text.Mathlib.Text.{◌==◌ as ◌=s=◌}
use rbus.Base.{ℕ, ◌+◌, Bool, true, false, Option, none, some, List, [], ◌∷◌, ◌==◌, if◌then◌else◌}

pub record Session : Type 0 where
  pub counter : ℕ
  pub current : ℕ

-- The globals of a new process.
abbrev pub start : Session
start = record { counter = 0; current = 0 }

-- RBUSCORE_SUCCESS and RBUS_ERROR_SUCCESS, RBUSCORE_ERROR_INVALID_STATE,
-- RBUS_ERROR_SESSION_ALREADY_EXIST, RBUS_ERROR_INVALID_INPUT, RBUS_ERROR_BUS_ERROR
pub data Code : Type 0 where
  success invalid_state already_exists invalid_input bus_error : Code

-- The out parameters "return_value" or "result", and "sessionid"; the published event has the
-- session id of its "sessionid"; the status is what the handler returns.
pub record Reply : Type 0 where
  pub result : Option Code
  pub session_id : Option ℕ
  pub event : Option ℕ
  pub status : Code

get_current : Session → Session × Reply
get_current s = (
  s,
  record { result = some success; session_id = some s.current; event = none; status = success },
)

request : Session → Session × Reply
request s =
    if s.current == 0
    then (
      record { counter = s.counter + 1; current = 1 },
      record { result = some success; session_id = some 1; event = some 1; status = success },
    )
    else (
      s,
      record {
        result = some invalid_state;
        session_id = none;
        event = some s.current;
        status = success;
      },
    )

-- The reply to the end of a session, with the event about the session that is current then.
end_reply : Session → Code → Session × Reply
end_reply s c =
    (s, record { result = some c; session_id = none; event = some s.current; status = success })

-- An id of 0 is taken for none.
end_session : Session → Option ℕ → Session × Reply
unfolding end_reply
end_session s none = end_reply s invalid_input
end_session s (some id) =
    if id == 0
    then end_reply s invalid_input
    else if id == s.current
    then end_reply (record s { current = 0 }) success
    else end_reply s already_exists

pub handle : Session → String → Option ℕ → Session × Reply
unfolding get_current request end_session
handle s method in_params =
    if method =s= "get_curr_s"
    then get_current s
    else if method =s= "req_new_s"
    then request s
    else if method =s= "end_of_s"
    then end_session s in_params
    else (s, record { result = none; session_id = none; event = none; status = bus_error })

abbrev pub Call : Type 0
Call = String × Option ℕ

-- A series of calls, in the order in which they arrive, and their replies.
pub run : Session → List Call → Session × List Reply
run s [] = (s, [])
run s ((method, arg) ∷ calls) =
    let (s', reply) = handle s method arg in
    let (s'', replies) = run s' calls in (s'', reply ∷ replies)
