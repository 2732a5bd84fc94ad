-- ===== src/Sessions/Revoked.antt =====
-- A session that was ended stays ended, in services/backend-api/internal/auth/sessions.go.
use monitoring_project.Prelude.{
  ℕ, ◌-◌, ◌≡◌, refl, ◌∙◌, inl, inr, String, Bool, true, false, ◌&&◌, ◌||◌, Option, none, some, [],
  ◌∷◌, ◌=s=◌, if◌then◌else◌, Bool-cases,
}
use monitoring_project.Prelude.Results.{Result, ok, error, Check}
use monitoring_project.Sessions.{
  Session, SessionRow, Table, Moment, Created, not_found, is_open, is_active, find, insert_row,
  has_row, has_open, update_row, update_rows, update_csrf, revoke_row, revoke_rows, is_old,
  delete_expired, day, create_stored, create_session, create_tokens, create_authenticated,
  validate_account, create, validate_found, validate, rotate_stored, rotate_token, rotate_csrf,
  revoke,
}

pub or_false : (a b : Bool) → (a || b) ≡ false → (a ≡ false) × (b ≡ false)
or_false true b h = absurd (cc)
or_false false b h = (refl, h)

pub and_false : (a : Bool) → (a && false) ≡ false
and_false true = refl
and_false false = refl

pub find-closed :
    (h : String) (now : ℕ) (rows : Table)
    → has_open h rows ≡ false
    → find h now rows ≡ error not_found
unfolding find has_open is_active
find-closed h now [] c = refl
find-closed h now (r ∷ rs) c =
    let (a, b) = or_false (is_open h r) (has_open h rs) c in rw a (find-closed h now rs b)

is_open-update : (h k x : String) (r : SessionRow) → is_open h (update_row k x r) ≡ is_open h r
unfolding update_row is_open
is_open-update h k x r = elim (Bool-cases (is_open k r)) [ inl e ↦ rw e refl | inr e ↦ rw e refl ]

has_open-update :
    (h k x : String) (rows : Table) → has_open h (update_rows k x rows) ≡ has_open h rows
unfolding has_open update_rows
has_open-update h k x [] = refl
has_open-update h k x (r ∷ rs) = rw (is_open-update h k x r, has_open-update h k x rs) refl

is_open-revoke_row :
    (h k : String) (t : ℕ) (r : SessionRow)
    → is_open h r ≡ false
    → is_open h (revoke_row k t r) ≡ false
unfolding revoke_row is_open
is_open-revoke_row h k t r c = elim (Bool-cases (is_open k r)) [
  | inl e ↦ rw e (and_false (r.token_hash =s= h))
  | inr e ↦ rw e c
]

is_open-revoked : (h : String) (t : ℕ) (r : SessionRow) → is_open h (revoke_row h t r) ≡ false
unfolding revoke_row is_open
is_open-revoked h t r = elim (Bool-cases (is_open h r)) [
  | inl e ↦ rw e (and_false (r.token_hash =s= h))
  | inr e ↦ rw e e
]

has_open-revoke_rows :
    (h k : String) (t : ℕ) (rows : Table)
    → has_open h rows ≡ false
    → has_open h (revoke_rows k t rows) ≡ false
unfolding has_open revoke_rows
has_open-revoke_rows h k t [] c = refl
has_open-revoke_rows h k t (r ∷ rs) c =
    let (a, b) = or_false (is_open h r) (has_open h rs) c in
    rw (is_open-revoke_row h k t r a) (has_open-revoke_rows h k t rs b)

has_open-revoked : (h : String) (t : ℕ) (rows : Table) → has_open h (revoke_rows h t rows) ≡ false
unfolding has_open revoke_rows
has_open-revoked h t [] = refl
has_open-revoked h t (r ∷ rs) = rw (is_open-revoked h t r) (has_open-revoked h t rs)

has_open-delete_expired :
    (h : String) (cutoff : ℕ) (rows : Table)
    → has_open h rows ≡ false
    → has_open h (delete_expired cutoff rows) ≡ false
unfolding has_open delete_expired
has_open-delete_expired h cutoff [] c = refl
has_open-delete_expired h cutoff (r ∷ rs) c =
    let (a, b) = or_false (is_open h r) (has_open h rs) c in
    let rest = has_open-delete_expired h cutoff rs b in
    elim (Bool-cases (is_old cutoff r)) [ inl e ↦ rw e rest | inr e ↦ rw (e, a) rest ]

has_open-insert_row :
    (stored_time : ℕ → ℕ) (h k : String) (session : Session) (rows : Table)
    → (k =s= h) ≡ false
    → has_open h rows ≡ false
    → has_open h (insert_row stored_time k session rows).1 ≡ false
unfolding has_open insert_row is_open
has_open-insert_row stored_time h k session rows n c = elim (Bool-cases (has_row k rows)) [
  | inl e ↦ rw e c
  | inr e ↦ rw (e, n) c
]

has_open-if :
    (h : String) (b : Bool) (x y : Table)
    → has_open h x ≡ false
    → has_open h y ≡ false
    → has_open h (if b then x else y) ≡ false
has_open-if h true x y p q = p
has_open-if h false x y p q = q

has_open-try :
    (h : String) (b : Bool) (x y : Check × Table)
    → has_open h x.1 ≡ false
    → has_open h y.1 ≡ false
    → has_open h (if b then x else y).1 ≡ false
has_open-try h true x y p q = p
has_open-try h false x y p q = q

module _ (hash_token : String → String) (valid_token : String → Bool) (ttl : ℕ)
    (stored_time : ℕ → ℕ) where
  -- One operation of the manager. The tokens that it draws do not hash to the given one.
  pub data Step (h : String) : Table → Table → Type 0 where
    created :
        (t : Moment) (username password : String) (rows : Table)
        → ((token : String) → t.token ≡ some token → (hash_token token =s= h) ≡ false)
        → Step h rows (create hash_token valid_token ttl stored_time t username password rows).1
    validated :
        (t : Moment) (token : String) (rows : Table)
        → Step h rows (validate hash_token valid_token ttl stored_time t token rows).1
    rotated :
        (t : Moment) (token : String) (rows : Table)
        → Step h rows (rotate_csrf hash_token valid_token ttl stored_time t token rows).1
    revoked :
        (t : Moment) (token : String) (rows : Table)
        → Step h rows (revoke hash_token valid_token ttl stored_time t token rows).1

  pub data Steps (h : String) : Table → Table → Type 0 where
    stay : (rows : Table) → Steps h rows rows
    go : (a b c : Table) → Step h a b → Steps h b c → Steps h a c

  create_stored-closed :
      (h : String) (t : Moment) (c : Created) (r : Check × Table)
      → has_open h r.1 ≡ false
      → has_open h (create_stored hash_token valid_token ttl stored_time t c r).1 ≡ false
  unfolding create_stored
  create_stored-closed h t c (error e, rows) k = k
  create_stored-closed h t c (ok _, rows) k =
      has_open-if h t.is_second_done _ rows
        (has_open-delete_expired h (stored_time (t.later - day)) rows k) k

  create_session-closed :
      (h : String) (t : Moment) (canonical token csrf : String) (rows : Table)
      → (hash_token token =s= h) ≡ false
      → has_open h rows ≡ false
      → has_open h
          (create_session hash_token valid_token ttl stored_time t canonical token csrf rows).1
        ≡ false
  unfolding create_session
  create_session-closed h t canonical token csrf rows n c = create_stored-closed h t _ _ (
      has_open-try h t.is_done _ _ (has_open-insert_row stored_time h (hash_token token) _ rows n c)
        c)

  create_tokens-closed :
      (h : String) (t : Moment) (canonical : String) (token csrf : Option String) (rows : Table)
      → ((drawn : String) → token ≡ some drawn → (hash_token drawn =s= h) ≡ false)
      → has_open h rows ≡ false
      → has_open h
          (create_tokens hash_token valid_token ttl stored_time t canonical token csrf rows).1
        ≡ false
  unfolding create_tokens
  create_tokens-closed h t canonical none csrf rows n c = c
  create_tokens-closed h t canonical (some token) none rows n c = c
  create_tokens-closed h t canonical (some token) (some csrf) rows n c =
      create_session-closed h t canonical token csrf rows (n token refl) c

  create_authenticated-closed :
      (h : String) (t : Moment) (r : Result (Option String)) (rows : Table)
      → ((token : String) → t.token ≡ some token → (hash_token token =s= h) ≡ false)
      → has_open h rows ≡ false
      → has_open h (create_authenticated hash_token valid_token ttl stored_time t r rows).1 ≡ false
  unfolding create_authenticated
  create_authenticated-closed h t (error e) rows n c = c
  create_authenticated-closed h t (ok none) rows n c = c
  create_authenticated-closed h t (ok (some canonical)) rows n c =
      create_tokens-closed h t canonical t.token t.csrf rows n c

  validate_found-closed :
      (h : String) (t : Moment) (k : String) (r : Result Session) (rows : Table)
      → has_open h rows ≡ false
      → has_open h (validate_found hash_token valid_token ttl stored_time t k r rows).1 ≡ false
  unfolding validate_found validate_account
  validate_found-closed h t k (error e) rows c = c
  validate_found-closed h t k (ok session) rows c =
      validate_account-closed (t.account_status session.username)
    where
      validate_account-closed :
          (r : Result Bool)
          → has_open h
              (validate_account hash_token valid_token ttl stored_time t k session r rows).1
            ≡ false
      validate_account-closed (error e) = c
      validate_account-closed (ok true) = c
      validate_account-closed (ok false) =
          has_open-if h t.is_second_done _ rows (has_open-revoke_rows h k t.database_now rows c) c

  validate-closed :
      (h : String) (t : Moment) (token : String) (rows : Table)
      → has_open h rows ≡ false
      → has_open h (validate hash_token valid_token ttl stored_time t token rows).1 ≡ false
  unfolding validate
  validate-closed h t token rows c = elim (Bool-cases (valid_token token)) [
    | inl e ↦ rw e (validate_found-closed h t (hash_token token) _ rows c)
    | inr e ↦ rw e c
  ]

  rotate_stored-closed :
      (h csrf : String) (r : Check × Table)
      → has_open h r.1 ≡ false
      → has_open h (rotate_stored hash_token valid_token ttl stored_time csrf r).1 ≡ false
  unfolding rotate_stored
  rotate_stored-closed h csrf (error e, rows) c = c
  rotate_stored-closed h csrf (ok _, rows) c = c

  rotate_token-closed :
      (h : String) (t : Moment) (k : String) (csrf : Option String) (rows : Table)
      → has_open h rows ≡ false
      → has_open h (rotate_token hash_token valid_token ttl stored_time t k csrf rows).1 ≡ false
  unfolding rotate_token update_csrf
  rotate_token-closed h t k none rows c = c
  rotate_token-closed h t k (some csrf) rows c =
      rotate_stored-closed h csrf _
        (has_open-try h t.is_done _ _ (has_open-update h k (hash_token csrf) rows ∙ c) c)

  Step-closed :
      (h : String) (a b : Table) → Step h a b → has_open h a ≡ false → has_open h b ≡ false
  unfolding create rotate_csrf revoke
  Step-closed h a b (created t username password rows n) c =
      create_authenticated-closed h t (t.authenticate username password) rows n c
  Step-closed h a b (validated t token rows) c = validate-closed h t token rows c
  Step-closed h a b (rotated t token rows) c = elim (Bool-cases (valid_token token)) [
    | inl e ↦ rw e (rotate_token-closed h t (hash_token token) t.csrf rows c)
    | inr e ↦ rw e c
  ]
  Step-closed h a b (revoked t token rows) c = elim (Bool-cases (valid_token token)) [
    | inr e ↦ rw e c
    | inl e ↦ elim (Bool-cases t.is_done) [
      | inr n ↦ rw (e, n) c
      | inl d ↦ rw (e, d) (has_open-revoke_rows h (hash_token token) t.database_now rows c)
    ]
  ]

  Steps-closed :
      (h : String) (a b : Table) → Steps h a b → has_open h a ≡ false → has_open h b ≡ false
  Steps-closed h a b (stay rows) c = c
  Steps-closed h a b (go x y z s ss) c = Steps-closed h y z ss (Step-closed h x y s c)

  -- A revocation of the token that was done, or a validation that found its session, met an
  -- inactive account and revoked.
  pub data Ends (token : String) : Table → Table → Type 0 where
    by_revocation :
        (t : Moment) (rows : Table)
        → t.is_done ≡ true
        → Ends token rows (revoke hash_token valid_token ttl stored_time t token rows).1
    by_status :
        (t : Moment) (session : Session) (rows : Table)
        → t.is_done ≡ true
        → find (hash_token token) (stored_time t.now) rows ≡ ok session
        → t.account_status session.username ≡ ok false
        → t.is_second_done ≡ true
        → Ends token rows (validate hash_token valid_token ttl stored_time t token rows).1

  Ends-closed :
      (token : String) (a b : Table)
      → valid_token token ≡ true
      → Ends token a b
      → has_open (hash_token token) b ≡ false
  unfolding revoke validate validate_found validate_account
  Ends-closed token a b valid (by_revocation t rows done) =
      rw (valid, done) (has_open-revoked (hash_token token) t.database_now rows)
  Ends-closed token a b valid (by_status t session rows done found inactive second) =
      rw (valid, done, found, inactive, second)
        (has_open-revoked (hash_token token) t.database_now rows)

  -- Once a valid token's session was ended, by a revocation that was done or by a validation that
  -- met an inactive account and revoked, a validation of the token whose query is done answers
  -- that there is no session, at any time and whatever operations come in between, where these
  -- draw no token with the same hash.
  pub validate-ended :
      (token : String) (u : Moment) (a b c : Table)
      → valid_token token ≡ true
      → Ends token a b
      → Steps (hash_token token) b c
      → u.is_done ≡ true
      → validate hash_token valid_token ttl stored_time u token c ≡ (error not_found, c)
  unfolding validate validate_found
  validate-ended token u a b c valid ends steps done =
      let closed = Steps-closed (hash_token token) b c steps (Ends-closed token a b valid ends) in
      rw (valid, done, find-closed (hash_token token) (stored_time u.now) c closed) refl
