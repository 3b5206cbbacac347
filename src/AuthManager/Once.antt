-- ===== src/AuthManager/Once.antt =====
-- auth_manager.py: a token or a ticket is good once, until it expires, whatever calls come between.
use light_belt.Prelude.{
  ℕ, ◌+◌, ◌≡◌, ◌∙◌, refl, false, none, some, List, [], ◌∷◌, ◌==◌, ==_refl, ==→eq, leb,
  if◌then◌else◌, Bool-cases, inl, inr, All,
}
use light_belt.AuthManager.{
  Auth, Dict, get, set, remove, Scope, refresh_info, refresh_token_expire_seconds,
  create_refresh_token, consume_refresh_token, create_ws_ticket, consume_ws_ticket,
}

module _ {V : Type 0} where
  get-set : (k : ℕ) (v : V) (d : Dict V) → get k (set k v d) ≡ some v
  unfolding get set
  get-set k v [] = rw (==_refl k) refl
  get-set k v ((j, u) ∷ rest) = elim (Bool-cases (j == k)) [
    | inl e ↦ rw (e, ==_refl k) refl
    | inr e ↦ rw (e, e) (get-set k v rest)
  ]

  get-set_other : (k j : ℕ) (v : V) (d : Dict V) → (j == k) ≡ false → get k (set j v d) ≡ get k d
  unfolding get set
  get-set_other k j v [] h = rw h refl
  get-set_other k j v ((i, u) ∷ rest) h = elim (Bool-cases (i == j)) [
    | inl e ↦ rw (e, h, ==→eq i j e, h) refl
    | inr e ↦ rw (e, get-set_other k j v rest h) refl
  ]

  get-remove : (k : ℕ) (d : Dict V) → get k (remove k d) ≡ none
  unfolding get remove
  get-remove k [] = refl
  get-remove k ((j, u) ∷ rest) = elim (Bool-cases (j == k)) [
    | inl e ↦ rw e (get-remove k rest)
    | inr e ↦ rw (e, e) (get-remove k rest)
  ]

  get-remove_other : (k j : ℕ) (d : Dict V) → (j == k) ≡ false → get k (remove j d) ≡ get k d
  unfolding get remove
  get-remove_other k j [] h = refl
  get-remove_other k j ((i, u) ∷ rest) h = elim (Bool-cases (i == j)) [
    | inl e ↦ rw (e, ==→eq i j e, h) (get-remove_other k j rest h)
    | inr e ↦ rw (e, get-remove_other k j rest h) refl
  ]

-- The calls that change the two dictionaries. The first argument is the token or the ticket.
pub data Call : Type 0 where
  create_refresh : ℕ → ℕ → ℕ → List Scope → Call
  consume_refresh : ℕ → ℕ → Call
  create_ticket : ℕ → ℕ → ℕ → List ℕ → Call
  consume_ticket : ℕ → ℕ → Call

unfoldable pub call : Call → Auth → Auth
call (create_refresh token now client_id scope) a = create_refresh_token token now client_id scope a
call (consume_refresh token now) a = (consume_refresh_token token now a).1
call (create_ticket ticket session_id now subscribe) a =
    create_ws_ticket ticket session_id now subscribe a
call (consume_ticket ticket now) a = (consume_ws_ticket ticket now a).1

unfoldable pub calls : List Call → Auth → Auth
calls [] a = a
calls (c ∷ cs) a = calls cs (call c a)

-- The call does not make this refresh token; it does not make or consume it.
abbrev pub DoesNotCreate : ℕ → Call → Type 0
DoesNotCreate token (create_refresh other now client_id scope) = (other == token) ≡ false
DoesNotCreate token (consume_refresh other now) = Unit {0}
DoesNotCreate token (create_ticket ticket session_id now subscribe) = Unit {0}
DoesNotCreate token (consume_ticket ticket now) = Unit {0}

abbrev pub DoesNotTouch : ℕ → Call → Type 0
DoesNotTouch token (create_refresh other now client_id scope) = (other == token) ≡ false
DoesNotTouch token (consume_refresh other now) = (other == token) ≡ false
DoesNotTouch token (create_ticket ticket session_id now subscribe) = Unit {0}
DoesNotTouch token (consume_ticket ticket now) = Unit {0}

call-DoesNotTouch :
    (token : ℕ) (c : Call) (a : Auth)
    → DoesNotTouch token c
    → get token (call c a).refresh_tokens ≡ get token a.refresh_tokens
unfolding call create_refresh_token consume_refresh_token create_ws_ticket consume_ws_ticket
call-DoesNotTouch token (create_refresh other now client_id scope) a h =
    get-set_other token other (refresh_info now client_id scope) a.refresh_tokens h
call-DoesNotTouch token (consume_refresh other now) a h =
    get-remove_other token other a.refresh_tokens h
call-DoesNotTouch token (create_ticket ticket session_id now subscribe) a h = refl
call-DoesNotTouch token (consume_ticket ticket now) a h = refl

calls-DoesNotTouch :
    (token : ℕ) (cs : List Call) (a : Auth)
    → All (DoesNotTouch token) cs
    → get token (calls cs a).refresh_tokens ≡ get token a.refresh_tokens
unfolding calls
calls-DoesNotTouch token [] a h = refl
calls-DoesNotTouch token (c ∷ cs) a h =
    calls-DoesNotTouch token cs (call c a) h.1 ∙ call-DoesNotTouch token c a h.0

call-DoesNotCreate :
    (token : ℕ) (c : Call) (a : Auth)
    → DoesNotCreate token c
    → get token a.refresh_tokens ≡ none
    → get token (call c a).refresh_tokens ≡ none
unfolding call create_refresh_token consume_refresh_token create_ws_ticket consume_ws_ticket
call-DoesNotCreate token (create_refresh other now client_id scope) a h gone =
    get-set_other token other (refresh_info now client_id scope) a.refresh_tokens h ∙ gone
call-DoesNotCreate token (consume_refresh other now) a h gone = elim (Bool-cases (other == token)) [
  | inl e ↦ rw (==→eq other token e) (get-remove token a.refresh_tokens)
  | inr e ↦ get-remove_other token other a.refresh_tokens e ∙ gone
]
call-DoesNotCreate token (create_ticket ticket session_id now subscribe) a h gone = gone
call-DoesNotCreate token (consume_ticket ticket now) a h gone = gone

calls-DoesNotCreate :
    (token : ℕ) (cs : List Call) (a : Auth)
    → All (DoesNotCreate token) cs
    → get token a.refresh_tokens ≡ none
    → get token (calls cs a).refresh_tokens ≡ none
unfolding calls
calls-DoesNotCreate token [] a h gone = gone
calls-DoesNotCreate token (c ∷ cs) a h gone =
    calls-DoesNotCreate token cs (call c a) h.1 (call-DoesNotCreate token c a h.0 gone)

-- A refresh token that was made is answered with its client and scope, if it is consumed when it has
-- not expired, and with None if it has, whatever calls for other tokens and for tickets come between.
-- It is answered once: after that, until a token of this name is made again, it is answered with
-- None, however many calls come between and whatever the time.
pub refresh_token_once :
    (a : Auth) (token client_id made now later : ℕ) (scope : List Scope) (between after : List Call)
    → All (DoesNotTouch token) between
    → All (DoesNotCreate token) after
    → let first =
        consume_refresh_token token now
          (calls between (create_refresh_token token made client_id scope a)) in
      (first.0 ≡ (
        if leb now (made + refresh_token_expire_seconds)
        then some (refresh_info made client_id scope)
        else none))
      × ((consume_refresh_token token later (calls after first.1)).0 ≡ none)
unfolding consume_refresh_token create_refresh_token
refresh_token_once a token client_id made now later scope between after untouched uncreated =
    let start : Auth = record a {
      refresh_tokens = set token (refresh_info made client_id scope) a.refresh_tokens;
    } in
    let kept =
      calls-DoesNotTouch token between start untouched
      ∙ get-set token (refresh_info made client_id scope) a.refresh_tokens in
    let consumed : Auth = record (calls between start) {
      refresh_tokens = remove token (calls between start).refresh_tokens;
    } in
    (
      rw kept refl,
      rw
          (calls-DoesNotCreate token after consumed uncreated
            (get-remove token (calls between start).refresh_tokens))
          refl,
    )
