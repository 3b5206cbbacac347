-- ===== src/AuthManager.antt =====
-- host_services/auth_manager.py: refresh tokens and WebSocket tickets, each of which is consumed once.
-- A token, a ticket, a session and a client are numbers; `uuid4` and the time are arguments of the calls,
-- and what `jwt` does is a parameter, a `Jwt`.
pub mod Once
mod Examples
use light_belt.Prelude.{
  ℕ, ◌+◌, Bool, true, false, Option, none, some, List, [], ◌∷◌, ◌==◌, leb, if◌then◌else◌,
}

abbrev pub access_token_expire_seconds : ℕ
access_token_expire_seconds = 3600

abbrev pub refresh_token_expire_seconds : ℕ
refresh_token_expire_seconds = 86_400

abbrev pub ws_ticket_expire_seconds : ℕ
ws_ticket_expire_seconds = 60

-- The scopes of DEFAULT_SCOPE.
pub data Scope : Type 0 where
  state_read playback_write lights_write effects_write audio_write scenes_write : Scope

abbrev pub default_scope : List Scope
default_scope =
    state_read ∷ playback_write ∷ lights_write ∷ effects_write ∷ audio_write ∷ scenes_write ∷ []

pub record AccessPayload : Type 0 where
  pub client_id : ℕ
  pub scope : List Scope
  pub exp : ℕ

-- What `jwt.decode` does with a token: the payload, or one of the exceptions that are caught.
pub data Decoded : Type 0 where
  payload : AccessPayload → Decoded
  expired invalid : Decoded

pub record Jwt : Type 0 where
  pub encode : AccessPayload → ℕ
  pub decode : ℕ → ℕ → Decoded

pub record RefreshInfo : Type 0 where
  pub client_id : ℕ
  pub scope : List Scope
  pub expires_at : ℕ

pub record TicketInfo : Type 0 where
  pub session_id : ℕ
  pub subscribe : List ℕ
  pub expires_at : ℕ

-- A dictionary, in the order of insertion.
abbrev pub Dict : Type 0 → Type 0
Dict V = List (ℕ × V)

module _ {V : Type 0} where
  unfoldable pub get : ℕ → Dict V → Option V
  get k [] = none
  get k ((j, v) ∷ rest) = if j == k then some v else get k rest

  -- `d[k] = v`
  unfoldable pub set : ℕ → V → Dict V → Dict V
  set k v [] = (k, v) ∷ []
  set k v ((j, u) ∷ rest) = if j == k then (k, v) ∷ rest else (j, u) ∷ set k v rest

  -- What `d.pop(k, None)` leaves.
  unfoldable pub remove : ℕ → Dict V → Dict V
  remove k [] = []
  remove k ((j, u) ∷ rest) = if j == k then remove k rest else (j, u) ∷ remove k rest

pub record Auth : Type 0 where
  pub refresh_tokens : Dict RefreshInfo
  pub ws_tickets : Dict TicketInfo

unfoldable pub create_access_token : Jwt → ℕ → ℕ → List Scope → ℕ × ℕ
create_access_token jwt now client_id scope = (
  jwt.encode
      (record { client_id = client_id; scope = scope; exp = now + access_token_expire_seconds }),
  access_token_expire_seconds,
)

abbrev pub verified : Decoded → Option AccessPayload
verified (payload p) = some p
verified expired = none
verified invalid = none

unfoldable pub verify_access_token : Jwt → ℕ → ℕ → Option AccessPayload
verify_access_token jwt now token = verified (jwt.decode now token)

abbrev pub is_expired : Decoded → Bool
is_expired (payload p) = false
is_expired expired = true
is_expired invalid = false

unfoldable pub is_token_expired : Jwt → ℕ → ℕ → Bool
is_token_expired jwt now token = is_expired (jwt.decode now token)

abbrev pub refresh_info : ℕ → ℕ → List Scope → RefreshInfo
refresh_info now client_id scope = record {
  client_id = client_id;
  scope = scope;
  expires_at = now + refresh_token_expire_seconds;
}

-- `token` is the name that `uuid4` has made.
unfoldable pub create_refresh_token : ℕ → ℕ → ℕ → List Scope → Auth → Auth
create_refresh_token token now client_id scope a = record a {
  refresh_tokens = set token (refresh_info now client_id scope) a.refresh_tokens;
}

-- `if info is None or _now() > expires_at: return None`
abbrev pub still_valid : {V : Type 0} → (V → ℕ) → ℕ → Option V → Option V
still_valid expires_at now none = none
still_valid expires_at now (some info) = if leb now (expires_at info) then some info else none

unfoldable pub consume_refresh_token : ℕ → ℕ → Auth → Option RefreshInfo × Auth
consume_refresh_token token now a = (
  still_valid (λ (i : RefreshInfo). i.expires_at) now (get token a.refresh_tokens),
  record a { refresh_tokens = remove token a.refresh_tokens },
)

pub record TokenPair : Type 0 where
  pub access_token : ℕ
  pub refresh_token : ℕ
  pub expires_in : ℕ
  pub scope : List Scope

unfoldable pub issue_token_pair : Jwt → ℕ → ℕ → ℕ → Auth → TokenPair × Auth
issue_token_pair jwt token now client_id a =
    let (access, expires_in) = create_access_token jwt now client_id default_scope in
    (
      record {
        access_token = access;
        refresh_token = token;
        expires_in = expires_in;
        scope = default_scope;
      },
      create_refresh_token token now client_id default_scope a,
    )

abbrev pub ticket_info : ℕ → ℕ → List ℕ → TicketInfo
ticket_info now session_id subscribe = record {
  session_id = session_id;
  subscribe = subscribe;
  expires_at = now + ws_ticket_expire_seconds;
}

unfoldable pub create_ws_ticket : ℕ → ℕ → ℕ → List ℕ → Auth → Auth
create_ws_ticket ticket session_id now subscribe a = record a {
  ws_tickets = set ticket (ticket_info now session_id subscribe) a.ws_tickets;
}

unfoldable pub consume_ws_ticket : ℕ → ℕ → Auth → Option TicketInfo × Auth
consume_ws_ticket ticket now a = (
  still_valid (λ (i : TicketInfo). i.expires_at) now (get ticket a.ws_tickets),
  record a { ws_tickets = remove ticket a.ws_tickets },
)
