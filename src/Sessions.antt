-- ===== src/Sessions.antt =====
-- The sessions of the backend, services/backend-api/internal/auth/sessions.go. Texts stand for byte
-- strings; SHA-256, base64, the random source, the clocks and the broker of accounts are parameters.
-- The table of PostgreSQL is a list of rows, one for each INSERT that its primary key let pass; each
-- statement is one step, that is done as a whole or not at all. A time is a number of nanoseconds;
-- what a column of times keeps of it, a number of microseconds, is the parameter `stored_time`.
pub mod Revoked
pub mod Tokens
mod Tests
use monitoring_project.Prelude.{
  ℕ, ◌+◌, ◌-◌, String, Bool, true, false, not, ◌&&◌, ◌||◌, Option, none, some, List, [], ◌∷◌, ◌=s=◌,
  ltb, leb, if◌then◌else◌,
}
use monitoring_project.Prelude.Results.{Result, ok, error, Check}

pub record Session : Type 0 where
  pub username : String
  pub csrf_hash : String
  pub expires_at : ℕ

-- A row of `appliance_sessions`.
pub record SessionRow : Type 0 where
  pub token_hash : String
  pub session : Session
  pub revoked_at : Option ℕ

abbrev pub Table : Type 0
Table = List SessionRow

-- `ErrSessionNotFound`
abbrev pub not_found : String
not_found = "session not found"

-- `revoked_at IS NULL`
unfoldable pub is_open : String → SessionRow → Bool
is_open hash r = r.token_hash =s= hash && (elim (r.revoked_at) [ none ↦ true | some t ↦ false ])

unfoldable pub is_active : String → ℕ → SessionRow → Bool
unfolding is_open
is_active hash now r = is_open hash r && ltb now r.session.expires_at

-- The row that the WHERE clause of `Find` selects; the time is given as a column keeps it.
unfoldable pub find : String → ℕ → Table → Result Session
find hash now [] = error not_found
find hash now (r ∷ rs) = if is_active hash now r then ok r.session else find hash now rs

unfoldable pub has_row : String → Table → Bool
has_row hash [] = false
has_row hash (r ∷ rs) = r.token_hash =s= hash || has_row hash rs

-- The INSERT of `Create`, that the primary key refuses for a hash that is there; the row has the
-- time as its column keeps it.
unfoldable pub insert_row : (ℕ → ℕ) → String → Session → Table → Check × Table
insert_row stored_time hash session rows =
    if has_row hash rows then (error "create appliance session", rows) else (
      ok tt,
      record {
        token_hash = hash;
        session = record session { expires_at = stored_time session.expires_at };
        revoked_at = none;
      }
          ∷ rows,
    )

unfoldable pub has_open : String → Table → Bool
has_open hash [] = false
has_open hash (r ∷ rs) = is_open hash r || has_open hash rs

-- `UpdateCSRF`, row by row.
unfoldable pub update_row : String → String → SessionRow → SessionRow
update_row hash csrf_hash r =
    if is_open hash r then record r { session = record r.session { csrf_hash = csrf_hash } } else r

unfoldable pub update_rows : String → String → Table → Table
update_rows hash csrf_hash [] = []
update_rows hash csrf_hash (r ∷ rs) = update_row hash csrf_hash r ∷ update_rows hash csrf_hash rs

unfoldable pub update_csrf : String → String → Table → Check × Table
update_csrf hash csrf_hash rows =
    (if has_open hash rows then ok tt else error not_found, update_rows hash csrf_hash rows)

-- `Revoke`, row by row.
unfoldable pub revoke_row : String → ℕ → SessionRow → SessionRow
revoke_row hash t r = if is_open hash r then record r { revoked_at = some t } else r

unfoldable pub revoke_rows : String → ℕ → Table → Table
revoke_rows hash t [] = []
revoke_rows hash t (r ∷ rs) = revoke_row hash t r ∷ revoke_rows hash t rs

-- `DeleteExpired`, at a time as a column keeps it.
unfoldable pub is_old : ℕ → SessionRow → Bool
is_old cutoff r =
    leb r.session.expires_at cutoff
    || (elim (r.revoked_at) [ none ↦ false | some t ↦ leb t cutoff ])

unfoldable pub delete_expired : ℕ → Table → Table
delete_expired cutoff [] = []
delete_expired cutoff (r ∷ rs) =
    let rest = delete_expired cutoff rs in if is_old cutoff r then rest else r ∷ rest

abbrev pub day : ℕ
day = 86400000000000

-- What one request meets: the clock, read twice, and that of the database; whether the first and
-- the second statement are done; the tokens of the random source; and the answers of the broker,
-- where `none` is wrong credentials.
pub record Moment : Type 0 where
  pub now : ℕ
  pub later : ℕ
  pub database_now : ℕ
  pub is_done : Bool
  pub is_second_done : Bool
  pub token : Option String
  pub csrf : Option String
  pub authenticate : String → String → Result (Option String)
  pub account_status : String → Result Bool

-- What `Create` gives the browser.
pub record Created : Type 0 where
  pub token : String
  pub csrf : String
  pub session : Session

-- `valid_token` is that a token decodes to 32 bytes.
module _ (hash_token : String → String) (valid_token : String → Bool) (ttl : ℕ)
    (stored_time : ℕ → ℕ) where
  unfoldable pub create_stored : Moment → Created → Check × Table → Result (Option Created) × Table
  create_stored t c (error e, rows) = (error e, rows)
  create_stored t c (ok _, rows) = (
    ok (some c),
    if t.is_second_done then delete_expired (stored_time (t.later - day)) rows else rows,
  )

  unfoldable pub create_session :
      Moment → String → String → String → Table → Result (Option Created) × Table
  create_session t canonical token csrf rows =
      let session : Session = record {
        username = canonical;
        csrf_hash = hash_token csrf;
        expires_at = t.now + ttl;
      } in
      create_stored t (record { token = token; csrf = csrf; session = session })
        (if t.is_done
          then insert_row stored_time (hash_token token) session rows
          else (error "create appliance session", rows))

  unfoldable pub create_tokens :
      Moment → String → Option String → Option String → Table → Result (Option Created) × Table
  create_tokens t canonical none csrf rows = (error "generate session token", rows)
  create_tokens t canonical (some token) none rows = (error "generate csrf token", rows)
  create_tokens t canonical (some token) (some csrf) rows =
      create_session t canonical token csrf rows

  unfoldable pub create_authenticated :
      Moment → Result (Option String) → Table → Result (Option Created) × Table
  create_authenticated t (error e) rows = (error e, rows)
  create_authenticated t (ok none) rows = (ok none, rows)
  create_authenticated t (ok (some canonical)) rows = create_tokens t canonical t.token t.csrf rows

  -- `Create`; without an error, `none` is wrong credentials.
  unfoldable pub create : Moment → String → String → Table → Result (Option Created) × Table
  create t username password rows = create_authenticated t (t.authenticate username password) rows

  unfoldable pub validate_account :
      Moment → String → Session → Result Bool → Table → Result Session × Table
  validate_account t hash session (error e) rows = (error "check appliance account status", rows)
  validate_account t hash session (ok true) rows = (ok session, rows)
  validate_account t hash session (ok false) rows =
      (error not_found, if t.is_second_done then revoke_rows hash t.database_now rows else rows)

  unfoldable pub validate_found : Moment → String → Result Session → Table → Result Session × Table
  validate_found t hash (error e) rows = (error e, rows)
  validate_found t hash (ok session) rows =
      validate_account t hash session (t.account_status session.username) rows

  -- `Validate`
  unfoldable pub validate : Moment → String → Table → Result Session × Table
  validate t token rows =
      if not (valid_token token)
      then (error not_found, rows)
      else validate_found t (hash_token token)
          (if t.is_done
            then find (hash_token token) (stored_time t.now) rows
            else error "find appliance session")
          rows

  unfoldable pub rotate_stored : String → Check × Table → Result String × Table
  rotate_stored csrf (error e, rows) = (error e, rows)
  rotate_stored csrf (ok _, rows) = (ok csrf, rows)

  unfoldable pub rotate_token : Moment → String → Option String → Table → Result String × Table
  rotate_token t hash none rows = (error "generate csrf token", rows)
  rotate_token t hash (some csrf) rows = rotate_stored csrf (
      if t.is_done
      then update_csrf hash (hash_token csrf) rows
      else (error "update appliance session csrf", rows))

  -- `RotateCSRF`
  unfoldable pub rotate_csrf : Moment → String → Table → Result String × Table
  rotate_csrf t token rows =
      if not (valid_token token)
      then (error not_found, rows)
      else rotate_token t (hash_token token) t.csrf rows

  -- `Revoke`
  unfoldable pub revoke : Moment → String → Table → Check × Table
  revoke t token rows =
      if not (valid_token token)
      then (ok tt, rows)
      else if t.is_done
      then (ok tt, revoke_rows (hash_token token) t.database_now rows)
      else (error "revoke appliance session", rows)

  -- `csrfMatches`; `is_sha256` is that a hash has the size of SHA-256.
  unfoldable pub csrf_matches : (String → Bool) → String → String → Bool
  csrf_matches is_sha256 raw expected =
      valid_token raw && is_sha256 expected && hash_token raw =s= expected
