-- ===== src/Media/Previews/Examples.antt =====
-- A token that is used before it expires.
use kinugasa_recording.Shared.{
  ◌≡◌, refl, [], ◌∷◌, List, some, codes, arith, is_whitespace, is_blank, ok, text_eq,
}
use kinugasa_recording.Media.Previews.{
  IssueCalls, no_grants, new_access_token, new_token, grant_token, issue, authorize,
}
use kinugasa_recording.Media.Previews.Grants.{Issued, permitted, Served, authorize-permitted}

abbrev calls : IssueCalls
calls = record {
  lifetime = some 60;
  expires_at = some 160;
  first_id = codes "a1";
  second_id = codes "b2";
  now_at = λ key. 100;
}

abbrev log : List Issued
log = record { token = codes "a1b2"; grant = record { session_id = 7; expires_at = 160 } } ∷ []

granted : (issue 7 calls no_grants).0 ≡ ok (codes "a1b2", 160)
unfolding issue new_token grant_token new_access_token is_blank is_whitespace
granted = refl

served : Served log 100 (issue 7 calls no_grants).1
unfolding issue new_token grant_token new_access_token is_blank is_whitespace
served = Served.issued 7 calls 100 (omega arith) (λ key. omega arith) Served.unused

authorize-permitted_example :
    (authorize 7 (codes "a1b2") 150 (issue 7 calls no_grants).1).0
    ≡ permitted 7 (codes "a1b2") 150 log
authorize-permitted_example =
    authorize-permitted 7 (codes "a1b2") 150 {log = log} {latest = 100}
      {grants = (issue 7 calls no_grants).1} (omega arith) served

is_permitted : permitted 7 (codes "a1b2") 150 log ≡ some 160
unfolding text_eq
is_permitted = refl
