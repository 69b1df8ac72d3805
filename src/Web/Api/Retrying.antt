-- ===== src/Web/Api/Retrying.antt =====
-- How often apps/web/src/lib/api.ts calls the server for one call of a page, and with which token.
use wa_ops.Base.{
  ◌≡◌, refl, ◌⊎◌, inl, inr, Bool, true, false, String, Option, none, some, ◌∷◌, ◌==◌, ◌∙◌, ==_iff,
  ap, Bool-cases, Option-cases,
}
use wa_ops.Base.Dict.{Dict}
use wa_ops.Web.Api.{
  Call, call, refresh_call, Response, Client, is_ok, is_token, headers_of, ask, refresh, api_again,
  on_unauthorized, api, call_of,
}

module _ {Init Value Server : Type 0}
    (fetch : Server → Call Init → Server × Option (Response Value)) where
  -- The server behind a call, and what it answers.
  abbrev pub after : Server → Call Init → Server
  after s k = (fetch s k).0

  abbrev pub reply : Server → Call Init → Option (Response Value)
  reply s k = (fetch s k).1

  -- A refresh that gives a token.
  pub record Renewed (s : Server) (token : Option String) : Type 0 where
    pub response : Response Value
    pub replied : reply s refresh_call ≡ some response
    pub ok : is_ok response.status ≡ true
    pub same : response.access_token ≡ token
    pub filled : is_token token ≡ true

  calls-api_again :
      (c : Client fetch) (path : String) (headers : Dict String) (init : Init)
      → (api_again fetch c path headers init).0.calls ≡ call_of fetch c path headers init ∷ c.calls
  unfolding api_again ask
  calls-api_again c path headers init =
      elim (Option-cases (reply c.server (call_of fetch c path headers init))) [
        | inl e ↦ rw (e, api_again, ask) refl
        | inr (r, e) ↦ rw (e, api_again, ask) refl
      ]

  -- What a refresh comes to.
  refresh_lem :
      (c : Client fetch)
      → ((refresh fetch c).0.calls ≡ refresh_call ∷ c.calls)
        × (((refresh fetch c).1 ≡ none)
            ⊎ (((refresh fetch c).1 ≡ some false)
                ⊎ (((refresh fetch c).1 ≡ some true)
                    × Renewed c.server (refresh fetch c).0.access_token)))
  unfolding refresh ask
  refresh_lem c = elim (Option-cases (reply c.server refresh_call)) [
    | inl e ↦ rw (e, refresh) (refl, inl refl)
    | inr (q, e) ↦ elim (Bool-cases (is_ok q.status)) [
      | inr bad ↦ rw (e, refresh, bad) (refl, inr (inl refl))
      | inl ok ↦ elim (Bool-cases (is_token q.access_token)) [
        | inr nothing ↦ rw (e, refresh, ok) (refl, inr (inl (rw nothing refl)))
        | inl filled ↦
            rw (e, refresh, ok)
              (
                refl,
                inr (
                    inr (
                      rw filled refl,
                      record { response = q; replied = e; ok = ok; same = refl; filled = filled },
                    )),
              )
      ]
    ]
  ]

  is_renewed : {x : Option Bool} → (x ≡ none) ⊎ (x ≡ some false) → ¬ (x ≡ some true)
  is_renewed (inl e) h = cc
  is_renewed (inr e) h = cc

  -- The calls behind a 401, and the token with which the call is made again.
  calls-on_unauthorized :
      (c : Client fetch) (r : Response Value) (path : String) (headers : Dict String) (init : Init)
      → (¬ ((refresh fetch c).1 ≡ some true)
          × ((on_unauthorized fetch c r path headers init).0.calls ≡ refresh_call ∷ c.calls))
        ⊎ ((token : Option String) × Renewed c.server token
            × ((on_unauthorized fetch c r path headers init).0.calls
                ≡ call path (headers_of token headers) init ∷ refresh_call ∷ c.calls))
  unfolding on_unauthorized
  calls-on_unauthorized c r path headers init =
      let (made, end) = refresh_lem c in
      elim end [
        | inl e ↦ inl (is_renewed (inl e), rw (e, on_unauthorized) made)
        | inr (inl e) ↦ inl (is_renewed (inr e), rw (e, on_unauthorized) made)
        | inr (inr (e, renewed)) ↦ inr (
          (refresh fetch c).0.access_token,
          renewed,
          rw (e, on_unauthorized)
              (calls-api_again (refresh fetch c).0 path headers init
                ∙ ap (λ z. call_of fetch (refresh fetch c).0 path headers init ∷ z) made),
        )
      ]

  -- The client behind the first call of `api`.
  abbrev pub asked : Client fetch → Call Init → Client fetch
  asked c k = (ask fetch c k).0

  -- A call of a page is one call of the server, with the token of the client. If the answer is no 401,
  -- or `fetch` throws, there is no other. A 401 is followed by a refresh: if it gives no token, there is
  -- no further call, and if it gives one, the same call follows once with this token.
  pub calls-api :
      (c : Client fetch) (path : String) (headers : Dict String) (init : Init)
      → let first = call_of fetch c path headers init in
        (((r : Response Value) → reply c.server first ≡ some r → ¬ (r.status ≡ 401))
          × ((api fetch c path headers init).0.calls ≡ first ∷ c.calls))
        ⊎ ((r : Response Value) × (reply c.server first ≡ some r)
            × (r.status ≡ 401)
            × ((¬ ((refresh fetch (asked c first)).1 ≡ some true)
                  × ((api fetch c path headers init).0.calls ≡ refresh_call ∷ first ∷ c.calls))
                ⊎ ((token : Option String) × Renewed (after c.server first) token
                    × ((api fetch c path headers init).0.calls
                        ≡ call path (headers_of token headers) init
                          ∷ refresh_call
                          ∷ first
                          ∷ c.calls))))
  unfolding api ask
  calls-api c path headers init =
      elim (Option-cases (reply c.server (call_of fetch c path headers init))) [
        | inl e ↦ rw (e, api, ask) (inl (λ r p. cc, refl))
        | inr (r, e) ↦ elim (Bool-cases (r.status == 401)) [
          | inr other ↦ inl (
            λ r' p h.
                (let same : r' ≡ r = cc in
                  let h' : (r.status == 401) ≡ true = (==_iff r.status 401).1 (rw (← same) h) in
                  cc),
            rw (e, api, ask, other) refl,
          )
          | inl expired ↦ inr (
            r,
            e,
            (==_iff r.status 401).0 expired,
            rw (e, api, ask, expired) (calls-on_unauthorized _ r path headers init),
          )
        ]
      ]
