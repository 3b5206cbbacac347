-- ===== src/AuthManager/Examples.antt =====
-- auth_manager.py: a test with two tokens and a ticket; the token 7 is consumed in time.
use light_belt.Prelude.{◌+◌, ◌≡◌, refl, none, some, List, [], ◌∷◌, leb, if◌then◌else◌}
use light_belt.AuthManager.{
  Auth, default_scope, refresh_info, refresh_token_expire_seconds, create_refresh_token,
  consume_refresh_token,
}
use light_belt.AuthManager.Once.{
  Call, create_refresh, consume_refresh, create_ticket, consume_ticket, calls, refresh_token_once,
}

abbrev empty : Auth
empty = record { refresh_tokens = []; ws_tickets = [] }

abbrev between : List Call
between =
    create_refresh 8 100 2 default_scope ∷ create_ticket 7 1 100 [] ∷ consume_refresh 8 101 ∷ []

abbrev after : List Call
after = consume_refresh 7 300 ∷ create_refresh 8 301 2 default_scope ∷ consume_ticket 7 302 ∷ []

refresh_token_once_example :
    let first =
      consume_refresh_token 7 200
        (calls between (create_refresh_token 7 100 1 default_scope empty)) in
    (first.0 ≡ (
      if leb 200 (100 + refresh_token_expire_seconds)
      then some (refresh_info 100 1 default_scope)
      else none))
    × ((consume_refresh_token 7 400 (calls after first.1)).0 ≡ none)
refresh_token_once_example =
    refresh_token_once empty 7 1 100 200 400 default_scope between after (refl, (tt, (refl, tt)))
      (tt, (refl, (tt, tt)))
