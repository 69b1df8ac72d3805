-- ===== src/Web/Tests.antt =====
-- Runs of the web application's helpers against small servers.
use wa_ops.Base.{ℕ, suc, String, ◌≡◌, ◌⊎◌, true, Option, none, some, [], ◌∷◌, ◌==◌, if◌then◌else◌}
use wa_ops.Web.Api.{Call, call, refresh_call, Response, Client, refresh, api, call_of, headers_of}
use wa_ops.Web.Api.Retrying.{Renewed, reply, after, asked, calls-api}

abbrev plain_response : ℕ → Response ℕ
plain_response status = record {
  status = status;
  status_text = "";
  access_token = some "fresh";
  json = some (record { value = 7; error_code = none; error_message = none });
}

-- A server that refuses the first call of a page and answers the others.
abbrev strict : ℕ → Call ℕ → ℕ × Option (Response ℕ)
strict seen k = (suc seen, some (plain_response (if seen == 0 then 401 else 200)))

abbrev page : Client strict
page = record { access_token = some "stale"; server = 0; calls = [] }

calls-api_example :
    let first = call_of strict page "/hosts" [] 0 in
    (((r : Response ℕ) → reply strict 0 first ≡ some r → ¬ (r.status ≡ 401))
      × ((api strict page "/hosts" [] 0).0.calls ≡ first ∷ []))
    ⊎ ((r : Response ℕ) × (reply strict 0 first ≡ some r)
        × (r.status ≡ 401)
        × ((¬ ((refresh strict (asked strict page first)).1 ≡ some true)
              × ((api strict page "/hosts" [] 0).0.calls ≡ refresh_call ∷ first ∷ []))
            ⊎ ((token : Option String) × Renewed strict (after strict 0 first) token
                × ((api strict page "/hosts" [] 0).0.calls
                    ≡ call "/hosts" (headers_of token []) 0 ∷ refresh_call ∷ first ∷ []))))
calls-api_example = calls-api strict page "/hosts" [] 0
