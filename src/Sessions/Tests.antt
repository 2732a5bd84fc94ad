-- ===== src/Sessions/Tests.antt =====
-- Sessions at concrete moments, services/backend-api/internal/auth/sessions.go.
use monitoring_project.Prelude.{
  ℕ, ◌*◌, ◌/◌, ◌≡◌, refl, String, Bool, true, false, not, none, some, [], ◌∷◌, ◌=s=◌, arith,
  if◌then◌else◌,
}
use monitoring_project.Prelude.Results.{ok, error}
use monitoring_project.Sessions.{
  Session, Table, Moment, not_found, find, has_row, create, validate, rotate_csrf, revoke,
  csrf_matches, is_active, is_open,
}
use monitoring_project.Sessions.Revoked.{by_revocation, stay, go, rotated, validate-ended}
use monitoring_project.Sessions.Tokens.{create-validate, rotate_csrf-validate}

abbrev hash : String → String
hash token = token

abbrev is_token : String → Bool
is_token token = not (token =s= "")

-- What PostgreSQL keeps of a time.
abbrev micros : ℕ → ℕ
micros t = (t / 1000) * 1000

abbrev at_time : ℕ → Moment
at_time n = record {
  now = n;
  later = n;
  database_now = n;
  is_done = true;
  is_second_done = true;
  token = some "token";
  csrf = some "csrf";
  authenticate = λ username password. if password =s= "secret" then ok (some username) else ok none;
  account_status = λ username. ok true;
}

abbrev operator : Session
operator = record { username = "operator"; csrf_hash = "old"; expires_at = 1000000 }

abbrev table : Table
table = record { token_hash = "token"; session = operator; revoked_at = none } ∷ []

abbrev after_revocation : Table
after_revocation = (revoke hash is_token 600500 micros (at_time 5001) "token" table).1

abbrev after_rotation : Table
after_rotation = (rotate_csrf hash is_token 600500 micros (at_time 6001) "token" after_revocation).1

validate-ended_example :
    validate hash is_token 600500 micros (at_time 9001) "token" after_rotation
    ≡ (error not_found, after_rotation)
validate-ended_example =
    validate-ended hash is_token 600500 micros "token" (at_time 9001) table after_revocation
      after_rotation refl (by_revocation (at_time 5001) table refl)
      (go after_revocation after_rotation after_rotation
        (rotated (at_time 6001) "token" after_revocation) (stay after_rotation))
      refl

abbrev created_session : Session
created_session = record { username = "operator"; csrf_hash = "csrf"; expires_at = 605501 }

create-validate_example :
    let r = create hash is_token 600500 micros (at_time 5001) "operator" "secret" [] in
    (r.0 ≡ ok (some (record { token = "token"; csrf = "csrf"; session = created_session })))
    × (validate hash is_token 600500 micros (at_time 700001) "token" r.1 ≡ (error not_found, r.1))
unfolding has_row
create-validate_example =
    create-validate hash is_token 600500 micros (at_time 5001) (at_time 700001) "operator" "secret"
      "operator" "token" "csrf" [] refl refl refl refl refl refl (omega arith) refl refl

rotate_csrf-validate_example :
    let r = rotate_csrf hash is_token 600500 micros (at_time 5001) "token" table in
    let s' : Session = record operator { csrf_hash = "csrf" } in
    (r.0 ≡ ok "csrf")
    × (validate hash is_token 600500 micros (at_time 9001) "token" r.1 ≡ (ok s', r.1))
    × (csrf_matches hash is_token 600500 micros is_token "csrf" s'.csrf_hash ≡ true)
    × (csrf_matches hash is_token 600500 micros is_token "old" s'.csrf_hash ≡ false)
unfolding find is_active is_open
rotate_csrf-validate_example =
    rotate_csrf-validate hash is_token 600500 micros is_token (at_time 5001) (at_time 9001) "token"
      "csrf" "old" operator table refl refl refl refl refl refl refl refl refl
