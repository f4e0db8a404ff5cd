-- ===== src/Auth/Session.antt =====
-- The sessions of the web pages: internal/auth/session.go with its queries
-- (sql/queries/sessions.sql). A cookie is the token in it; flash messages, the user agent and the
-- address of the client are left out.
use file_cheap.Prelude.{
  ◌≡◌, ◌≢◌, ℕ, ◌+◌, ◌*◌, ◌^◌, ◌≤◌, Bool, true, false, Option, none, some, List, [], ◌∷◌,
  if◌then◌else◌, ltb, All, arith,
}
use file_cheap.Prelude.Key.{◌==◌, nat_key}
use file_cheap.Prelude.Bytes.{Bytes, bytes_key, bytes_test_iff}
use file_cheap.Prelude.Map.{Map}
use file_cheap.Encoding.{raw_url}
use file_cheap.Auth.ApiToken.{hash_token}
use file_cheap.Auth.Accounts.{User, user_by_id}

-- A row of `sessions`: its user and its end.
pub record Session : Type 0 where
  pub user_id : ℕ
  pub expires_at : ℕ

-- The rows by their hash, which is a unique column.
abbrev pub Sessions : Type 0
Sessions = Bytes → Option Session

-- 30 days, in nanoseconds.
abbrev pub session_duration : ℕ
session_duration = 30 * 24 * 3600 * 10 ^ 9

abbrev pub with_session : ℕ → Bytes → ℕ → Sessions → Sessions
with_session now hash user_id rows h =
    if h == hash
    then some (record { user_id = user_id; expires_at = now + session_duration })
    else rows h

module _ (sha256 : Bytes → Bytes) where
  -- `CreateSession`: the cookie, or `none` for an error. `random` is `none` where there are no random
  -- bytes; `fails` is an error of the query that is not a repeated hash.
  unfoldable pub create_session : ℕ → Bool → Option Bytes → ℕ → Sessions → Option Bytes × Sessions
  create_session now fails none user_id rows = (none, rows)
  create_session now fails (some random) user_id rows =
      let token = raw_url random in
      let hash = hash_token sha256 token in
      elim (rows hash) [
        | some taken ↦ (none, rows)
        | none ↦ if fails then (none, rows) else (some token, with_session now hash user_id rows)
      ]

  -- `GetSession`: the user of the cookie, if there is one; a query that fails is taken for none.
  unfoldable pub get_session : ℕ → Bool → Option Bytes → Map ℕ User → Sessions → Option ℕ
  get_session now fails none users rows = none
  get_session now true (some token) users rows = none
  get_session now false (some token) users rows = elim (rows (hash_token sha256 token)) [
    | none ↦ none
    | some session ↦ elim (user_by_id session.user_id users) [
      | none ↦ none
      | some user ↦ if ltb now session.expires_at then some session.user_id else none
    ]
  ]

  -- `DeleteSession`.
  unfoldable pub delete_session : Bool → Option Bytes → Sessions → Sessions
  delete_session fails none rows h = rows h
  delete_session true (some token) rows h = rows h
  delete_session false (some token) rows h = if h == hash_token sha256 token then none else rows h

-- `DeleteAllUserSessions`.
unfoldable pub delete_all_user_sessions : Bool → ℕ → Sessions → Sessions
delete_all_user_sessions true user_id rows h = rows h
delete_all_user_sessions false user_id rows h = elim (rows h) [
  | none ↦ none
  | some session ↦ if session.user_id == user_id then none else some session
]

-- `CleanupExpiredSessions`.
unfoldable pub cleanup_expired_sessions : Bool → ℕ → Sessions → Sessions
cleanup_expired_sessions true now rows h = rows h
cleanup_expired_sessions false now rows h = elim (rows h) [
  | none ↦ none
  | some session ↦ if ltb session.expires_at now then none else some session
]

-- The calls that change the sessions.
pub data SessionCall : Type 0 where
  creates : ℕ → Bool → Option Bytes → ℕ → SessionCall
  deletes : Bool → Option Bytes → SessionCall
  deletes_all : Bool → ℕ → SessionCall
  cleans_up : Bool → ℕ → SessionCall

module _ (sha256 : Bytes → Bytes) where
  abbrev pub run_call : SessionCall → Sessions → Sessions
  run_call (creates now fails random user_id) rows =
      (create_session sha256 now fails random user_id rows).1
  run_call (deletes fails cookie) rows = delete_session sha256 fails cookie rows
  run_call (deletes_all fails user_id) rows = delete_all_user_sessions fails user_id rows
  run_call (cleans_up fails now) rows = cleanup_expired_sessions fails now rows

  abbrev pub run_calls : List SessionCall → Sessions → Sessions
  run_calls [] rows = rows
  run_calls (c ∷ cs) rows = run_calls cs (run_call c rows)

  -- Not a logout from this session or of its user, nor a clean-up after its end.
  abbrev pub Spares : Bytes → ℕ → ℕ → SessionCall → Type 0
  Spares hash user_id end (creates now fails random id) = Unit
  Spares hash user_id end (deletes fails none) = Unit
  Spares hash user_id end (deletes fails (some token)) = hash_token sha256 token ≢ hash
  Spares hash user_id end (deletes_all fails id) = id ≢ user_id
  Spares hash user_id end (cleans_up fails now) = now ≤ end

  call_keeps :
      (hash : Bytes) (user_id end : ℕ) (c : SessionCall) (rows : Sessions)
      → Spares hash user_id end c
      → rows hash ≡ some (record { user_id = user_id; expires_at = end })
      → run_call c rows hash ≡ some (record { user_id = user_id; expires_at = end })
  unfolding create_session delete_session delete_all_user_sessions cleanup_expired_sessions
  call_keeps hash user_id end (creates now fails none id) rows h e = e
  call_keeps hash user_id end (creates now fails (some random) id) rows h e =
      ground (arith, e, bytes_test_iff hash (hash_token sha256 (raw_url random)))
  call_keeps hash user_id end (deletes fails none) rows h e = e
  call_keeps hash user_id end (deletes true (some token)) rows h e = e
  call_keeps hash user_id end (deletes false (some token)) rows h e =
      ground (arith, e, h, bytes_test_iff hash (hash_token sha256 token))
  call_keeps hash user_id end (deletes_all true id) rows h e = e
  call_keeps hash user_id end (deletes_all false id) rows h e = ground (arith, e, h)
  call_keeps hash user_id end (cleans_up true now) rows h e = e
  call_keeps hash user_id end (cleans_up false now) rows h e = ground (arith, e, h)

  calls_keep :
      (hash : Bytes) (user_id end : ℕ) (cs : List SessionCall) (rows : Sessions)
      → All (Spares hash user_id end) cs
      → rows hash ≡ some (record { user_id = user_id; expires_at = end })
      → run_calls cs rows hash ≡ some (record { user_id = user_id; expires_at = end })
  calls_keep hash user_id end [] rows h e = e
  calls_keep hash user_id end (c ∷ cs) rows (h, hs) e =
      calls_keep hash user_id end cs (run_call c rows) hs (call_keeps hash user_id end c rows h e)

  create_session_lem :
      (now : ℕ) (random : Bytes) (user_id : ℕ) (rows : Sessions)
      → rows (hash_token sha256 (raw_url random)) ≡ none
      → create_session sha256 now false (some random) user_id rows ≡ (
        some (raw_url random),
        with_session now (hash_token sha256 (raw_url random)) user_id rows,
      )
  unfolding create_session
  create_session_lem now random user_id rows h = ground (arith, h)

  -- A session lives for 30 days: after it is made under a new hash, and whatever other calls follow
  -- (more sessions, logouts from other sessions, deletions for other users, clean-ups before its
  -- end, with any queries failing), its cookie is answered by a query that works with its user exactly
  -- before 30 days have passed, if that user is not deleted. After a logout with its cookie whose
  -- query works, it is answered with nobody.
  pub session_lives :
      (now : ℕ) (random : Bytes) (user_id : ℕ) (rows : Sessions)
      → rows (hash_token sha256 (raw_url random)) ≡ none
      → (cs : List SessionCall)
      → All (Spares (hash_token sha256 (raw_url random)) user_id (now + session_duration)) cs
      → (t : ℕ) (users : Map ℕ User) {user : User} → user_by_id user_id users ≡ some user
      → let (cookie, made) = create_session sha256 now false (some random) user_id rows in
        (get_session sha256 t false cookie users (run_calls cs made)
          ≡ (if ltb t (now + session_duration) then some user_id else none))
        × (get_session sha256 t false cookie users
              (delete_session sha256 false cookie (run_calls cs made))
            ≡ none)
  unfolding get_session delete_session
  session_lives now random user_id rows fresh cs spares t users alive =
      let hash = hash_token sha256 (raw_url random) in
      let kept =
        calls_keep hash user_id (now + session_duration) cs (with_session now hash user_id rows)
          spares (ground (arith, bytes_test_iff hash hash)) in
      rw (create_session_lem now random user_id rows fresh)
        (ground (arith, kept, alive), ground (arith, bytes_test_iff hash hash))
