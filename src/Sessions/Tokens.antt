-- ===== src/Sessions/Tokens.antt =====
-- What a new session and a new CSRF token are good for, in
-- services/backend-api/internal/auth/sessions.go.
use monitoring_project.Prelude.{
  ℕ, ◌+◌, ◌-◌, ◌<◌, ◌≡◌, refl, ap, inl, inr, String, Bool, true, false, ◌&&◌, none, some, [], ◌∷◌,
  ◌=s=◌, eq_refl, ltb, leb, if◌then◌else◌, Bool-cases, arith,
}
use monitoring_project.Prelude.Results.{ok, error, ok_inj}
use monitoring_project.Sessions.{
  Session, SessionRow, Table, Moment, not_found, is_open, is_active, find, insert_row, has_row,
  has_open, update_row, update_rows, update_csrf, is_old, delete_expired, day, create_stored,
  create_session, create_tokens, create_authenticated, create, validate_found, validate_account,
  validate, rotate_stored, rotate_token, rotate_csrf, csrf_matches,
}
use monitoring_project.Sessions.Revoked.{find-closed, or_false, and_false}

-- An update of the open rows changes the hash of the row that is found.
find-update :
    (h x : String) (now : ℕ) (s : Session) (rows : Table)
    → find h now rows ≡ ok s
    → find h now (update_rows h x rows) ≡ ok (record s { csrf_hash = x })
unfolding find update_rows update_row is_active is_open
find-update h x now s [] f = absurd (cc)
find-update h x now s (r ∷ rs) f = elim (Bool-cases (is_open h r)) [
  | inr e ↦ rw (e, e) (find-update h x now s rs (rw e at f))
  | inl e ↦ elim (Bool-cases (ltb now r.session.expires_at)) [
    | inr late ↦ rw (e, e, late) (find-update h x now s rs (rw (e, late) at f))
    | inl live ↦
        rw (e, e, live)
          (ap {A = Session} (λ s. ok (record s { csrf_hash = x })) (ok_inj (rw (e, live) at f)))
  ]
]

find-has_open :
    (h : String) (now : ℕ) (s : Session) (rows : Table)
    → find h now rows ≡ ok s
    → has_open h rows ≡ true
find-has_open h now s rows f = elim (Bool-cases (has_open h rows)) [
  | inl e ↦ e
  | inr e ↦ absurd (cc (find-closed h now rows e, f))
]

has_row-has_open : (h : String) (rows : Table) → has_row h rows ≡ false → has_open h rows ≡ false
unfolding has_row has_open is_open
has_row-has_open h [] n = refl
has_row-has_open h (r ∷ rs) n =
    let (a, b) = or_false (r.token_hash =s= h) (has_row h rs) n in rw a (has_row-has_open h rs b)

has_row-delete_expired :
    (h : String) (cutoff : ℕ) (rows : Table)
    → has_row h rows ≡ false
    → has_row h (delete_expired cutoff rows) ≡ false
unfolding has_row delete_expired
has_row-delete_expired h cutoff [] n = refl
has_row-delete_expired h cutoff (r ∷ rs) n =
    let (a, b) = or_false (r.token_hash =s= h) (has_row h rs) n in
    let rest = has_row-delete_expired h cutoff rs b in
    elim (Bool-cases (is_old cutoff r)) [ inl e ↦ rw e rest | inr e ↦ rw (e, a) rest ]

abbrev fresh : String → Session → SessionRow
fresh h s = record { token_hash = h; session = s; revoked_at = none }

find-fresh :
    (h : String) (now : ℕ) (s : Session) (rows : Table)
    → has_row h rows ≡ false
    → find h now (fresh h s ∷ rows) ≡ (if ltb now s.expires_at then ok s else error not_found)
unfolding find is_active is_open
find-fresh h now s rows n = rw (eq_refl h, find-closed h now rows (has_row-has_open h rows n)) refl

find-stored :
    (h : String) (now cutoff : ℕ) (cleaned : Bool) (s : Session) (rows : Table)
    → has_row h rows ≡ false
    → cutoff < s.expires_at
    → find h now (if cleaned then delete_expired cutoff (fresh h s ∷ rows) else fresh h s ∷ rows)
      ≡ (if ltb now s.expires_at then ok s else error not_found)
unfolding delete_expired is_old
find-stored h now cutoff false s rows n live = find-fresh h now s rows n
find-stored h now cutoff true s rows n live =
    let kept : leb s.expires_at cutoff ≡ false = ground arith in
    rw kept (find-fresh h now s _ (has_row-delete_expired h cutoff rows n))

module _ (hash_token : String → String) (valid_token : String → Bool) (ttl : ℕ)
    (stored_time : ℕ → ℕ) where
  validate_found-fresh :
      (u : Moment) (h : String) (s : Session) (live : Bool) (rows : Table)
      → u.account_status s.username ≡ ok true
      → validate_found hash_token valid_token ttl stored_time u h
          (if live then ok s else error not_found)
          rows
        ≡ (if live then ok s else error not_found, rows)
  unfolding validate_found validate_account
  validate_found-fresh u h s true rows active = rw active refl
  validate_found-fresh u h s false rows active = refl

  -- Credentials that the broker accepts, with fresh tokens, a statement that is done and a time to
  -- live that the second reading of the clock does not pass by a day, give a session. A validation
  -- of its token, whose query is done and whose account is active, then gives this session, with
  -- its expiry as the column keeps it, while the time of the validation, kept so too, is before
  -- that, and answers that there is none from then on.
  pub create-validate :
      (t u : Moment) (username password canonical token csrf : String) (rows : Table)
      → t.authenticate username password ≡ ok (some canonical)
      → t.token ≡ some token
      → t.csrf ≡ some csrf
      → valid_token token ≡ true
      → has_row (hash_token token) rows ≡ false
      → t.is_done ≡ true
      → stored_time (t.later - day) < stored_time (t.now + ttl)
      → u.is_done ≡ true
      → u.account_status canonical ≡ ok true
      → let session : Session = record {
        username = canonical;
        csrf_hash = hash_token csrf;
        expires_at = t.now + ttl;
      } in
        let kept = record session { expires_at = stored_time (t.now + ttl) } in
        let r = create hash_token valid_token ttl stored_time t username password rows in
        (r.0 ≡ ok (some (record { token = token; csrf = csrf; session = session })))
        × (validate hash_token valid_token ttl stored_time u token r.1 ≡ (
          if ltb (stored_time u.now) (stored_time (t.now + ttl)) then ok kept else error not_found,
          r.1,
        ))
  unfolding create create_authenticated create_tokens create_session create_stored insert_row
      validate validate_found validate_account
  create-validate t u username password canonical token csrf rows accepted drawn drawn' valid n done
        live done' active =
      let kept : Session = record {
        username = canonical;
        csrf_hash = hash_token csrf;
        expires_at = stored_time (t.now + ttl);
      } in
      let now = stored_time u.now in
      let found =
        find-stored (hash_token token) now (stored_time (t.later - day)) t.is_second_done kept rows
          n live in
      rw (accepted, drawn, drawn', done, n)
        (
          refl,
          rw (valid, done', found)
              (validate_found-fresh u (hash_token token) kept (ltb now kept.expires_at) _ active),
        )

  -- A rotation that is done, of a valid token with a session that is active at some time, gives
  -- the drawn CSRF token; a validation at that time then gives the session with its hash, which
  -- this token matches, and no token of another hash does.
  pub rotate_csrf-validate :
      (is_sha256 : String → Bool) (t u : Moment) (token csrf other : String) (s : Session)
      (rows : Table)
      → valid_token token ≡ true
      → t.is_done ≡ true
      → t.csrf ≡ some csrf
      → valid_token csrf ≡ true
      → is_sha256 (hash_token csrf) ≡ true
      → u.is_done ≡ true
      → find (hash_token token) (stored_time u.now) rows ≡ ok s
      → u.account_status s.username ≡ ok true
      → (hash_token other =s= hash_token csrf) ≡ false
      → let r = rotate_csrf hash_token valid_token ttl stored_time t token rows in
        let s' = record s { csrf_hash = hash_token csrf } in
        (r.0 ≡ ok csrf)
        × (validate hash_token valid_token ttl stored_time u token r.1 ≡ (ok s', r.1))
        × (csrf_matches hash_token valid_token ttl stored_time is_sha256 csrf s'.csrf_hash ≡ true)
        × (csrf_matches hash_token valid_token ttl stored_time is_sha256 other s'.csrf_hash ≡ false)
  unfolding rotate_csrf rotate_token rotate_stored update_csrf validate validate_found
      validate_account csrf_matches
  rotate_csrf-validate is_sha256 t u token csrf other s rows valid done drawn valid' size done'
        found active differs =
      let h = hash_token token in
      rw (valid, done, drawn, find-has_open h (stored_time u.now) s rows found)
        (
          refl,
          rw (done', find-update h (hash_token csrf) (stored_time u.now) s rows found, active) refl,
          rw (valid', size, eq_refl (hash_token csrf)) refl,
          rw (differs, size) (and_false (valid_token other && true)),
        )
