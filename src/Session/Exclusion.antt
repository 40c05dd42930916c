-- ===== src/Session/Exclusion.antt =====
-- sessionManager_methodHandler: the active session, and the sessions that it grants.
use Prim.Native.String.{String}
use rbus.Base.{ℕ, ◌+◌, ◌≤◌, ◌≡◌, ◌≢◌, ◌⊎◌, Option, none, some, List, [], ◌∷◌, arith}
use rbus.Session.{Session, success, Reply, handle, Call, run}

-- The session that a reply grants: a "return_value" of success with an event about it.
abbrev pub granted : Reply → ℕ
granted r = elim r.session_id [ none ↦ 0 | some id ↦ elim r.event [ none ↦ 0 | some _ ↦ 1 ] ]

abbrev pub grants : List Reply → ℕ
grants [] = 0
grants (r ∷ rs) = granted r + grants rs

abbrev pub IsValid : Session → Type 0
IsValid s = s.current ≤ 1

-- One call, whatever the method and its argument: the counter counts the sessions that were
-- granted; a session is granted only when none is active, and is then active; the active session
-- changes only by a grant or by an end that names it; and the id stays 0 or 1.
pub handle_lem :
    (s : Session) (method : String) (arg : Option ℕ)
    → let (s', r) = handle s method arg in
      (s'.counter ≡ s.counter + granted r)
      × (granted r ≡ 1 → (s.current ≡ 0) × (s'.current ≡ 1))
      × (s'.current ≢ s.current → (granted r ≡ 1) ⊎ (s'.current ≡ 0) × (arg ≡ some s.current))
      × (s.current ≤ 1 → s'.current ≤ 1)
unfolding handle
handle_lem s method arg = (ground arith, λ h. ground arith, λ h. ground arith, λ h. ground arith)

-- A reply to an end of the active session: a result of success without a session id.
abbrev pub ended : Reply → ℕ
ended r = elim r.session_id [
  | none ↦ elim r.result [ none ↦ 0 | some c ↦ elim c [ success ↦ 1 | _ ↦ 0 ] ]
  | some id ↦ 0
]

abbrev pub ends : List Reply → ℕ
ends [] = 0
ends (r ∷ rs) = ended r + ends rs

handle-alternates :
    (s : Session) (method : String) (arg : Option ℕ)
    → s.current ≤ 1
    → let (s', r) = handle s method arg in s.current + granted r ≡ s'.current + ended r
unfolding handle
handle-alternates s method arg h = ground arith

-- Sessions exclude each other: grants and ends alternate. From a session whose id is 0 or 1, any calls
-- leave an id of 0 or 1, and the id before them with the number of sessions that they grant is the id
-- behind them with the number of sessions that they end. So with no session active at first, the
-- grants are as many as the ends, and one more exactly if a session is active then.
pub run-alternates :
    (s : Session) (calls : List Call)
    → s.current ≤ 1
    → let (s', replies) = run s calls in
      (s.current + grants replies ≡ s'.current + ends replies) × (s'.current ≤ 1)
unfolding run
run-alternates s [] h = (omega arith, h)
run-alternates s ((method, arg) ∷ calls) h =
    let p = handle_lem s method arg in
    let p' = handle-alternates s method arg h in
    let q = run-alternates (handle s method arg).0 calls (p.3 h) in (omega (arith, p', q.0), q.1)

-- From a session whose id is 0 or 1, any calls raise the counter by the number of sessions that
-- their replies grant, and leave an id of 0 or 1: all sessions share one id.
pub run-grants :
    (s : Session) (calls : List Call)
    → s.current ≤ 1
    → let (s', replies) = run s calls in
      (s'.counter ≡ s.counter + grants replies) × (s'.current ≤ 1)
unfolding run
run-grants s [] h = omega arith
run-grants s ((method, arg) ∷ calls) h =
    let p = handle_lem s method arg in
    let q = run-grants (handle s method arg).0 calls (p.3 h) in (omega (arith, p.0, q.0), q.1)
