-- ===== src/Web/Api.antt =====
-- apps/web/src/lib/api.ts: the calls of the API from the browser, with one refresh of the access token.
-- The server is an argument, a state that each call changes; `fetch` may throw. A body that is no JSON
-- is `none`.
pub mod Retrying
use Prim.Native.String.{◌++◌}
use wa_ops.Base.{
  ℕ, ◌<◌, ◌≡◌, refl, Bool, true, false, ◌&&◌, String, Option, none, some, List, [], ◌∷◌, ◌==◌, leb,
  ltb, str_eq, if◌then◌else◌,
}
use wa_ops.Base.Dict.{Dict, put}

-- What `fetch` is called with.
pub data Call (Init : Type 0) : Type 0 where
  call : (path : String) (headers : Dict String) (init : Init) → Call Init
  -- `POST /auth/refresh` with the cookie
  refresh_call : Call Init

-- The fields `error.code` and `error.message` of a body, where it has them, beside the body.
pub record Body (Value : Type 0) : Type 0 where
  pub value : Value
  pub error_code : Option String
  pub error_message : Option String

pub record Response (Value : Type 0) : Type 0 where
  pub status : ℕ
  pub status_text : String
  -- the header x-access-token
  pub access_token : Option String
  pub json : Option (Body Value)

-- What a call comes to: a body (`none` for the `{}` in place of what is no JSON), an ApiError, or what
-- `fetch` throws.
pub data Outcome (Value : Type 0) : Type 0 where
  answered : Option Value → Outcome Value
  api_error : (code message : String) (status : ℕ) → Outcome Value
  failed : Outcome Value

-- `response.ok`
unfoldable pub is_ok : ℕ → Bool
is_ok status = leb 200 status && ltb status 300

abbrev or_else : String → Option String → String
or_else d none = d
or_else d (some s) = s

abbrev code_in : {Value : Type 0} → Option (Body Value) → Option String
code_in none = none
code_in (some b) = b.error_code

abbrev message_in : {Value : Type 0} → Option (Body Value) → Option String
message_in none = none
message_in (some b) = b.error_message

abbrev value_in : {Value : Type 0} → Option (Body Value) → Option Value
value_in none = none
value_in (some b) = some b.value

-- An empty token counts as none.
abbrev pub bearer : Option String → Dict String → Dict String
bearer none headers = headers
bearer (some token) headers =
    if str_eq token "" then headers else put "authorization" ("Bearer " ++ token) headers

abbrev put_all : Dict String → Dict String → Dict String
put_all [] headers = headers
put_all ((k, v) ∷ more) headers = put_all more (put k v headers)

-- The headers of a call: those of the caller come last.
unfoldable pub headers_of : Option String → Dict String → Dict String
headers_of token extra = put_all extra (bearer token (put "content-type" "application/json" []))

unfoldable pub is_token : Option String → Bool
is_token none = false
is_token (some token) = if str_eq token "" then false else true

-- The end of `api`, behind the retry.
unfoldable pub read_answer : {Value : Type 0} → Response Value → Outcome Value
unfolding is_ok
read_answer r =
    if is_ok r.status
    then answered (value_in r.json)
    else api_error (or_else "internal_error" (code_in r.json))
        (or_else r.status_text (message_in r.json)) r.status

module _ {Init Value Server : Type 0}
    (fetch : Server → Call Init → Server × Option (Response Value)) where
  -- `accessToken`, the server, and the calls that were made, the last one first.
  pub record Client : Type 0 where
    pub access_token : Option String
    pub server : Server
    pub calls : List (Call Init)

  unfoldable pub ask : Client → Call Init → Client × Option (Response Value)
  ask c k =
      let (server, r) = fetch c.server k in (record c { server = server; calls = k ∷ c.calls }, r)

  -- refresh: whether there is a token afterwards, or `none` where `fetch` throws.
  unfoldable pub refresh : Client → Client × Option Bool
  unfolding ask is_ok is_token
  refresh c =
      let (c', found) = ask c refresh_call in
      elim found [
        | none ↦ (c', none)
        | some r ↦
            if is_ok r.status
            then (record c' { access_token = r.access_token }, some (is_token r.access_token))
            else (c', some false)
      ]

  abbrev pub call_of : Client → String → Dict String → Init → Call Init
  call_of c path headers init = call path (headers_of c.access_token headers) init

  -- `api(path, init, false)`
  unfoldable pub api_again : Client → String → Dict String → Init → Client × Outcome Value
  unfolding ask read_answer headers_of
  api_again c path headers init =
      let (c', found) = ask c (call_of c path headers init) in
      elim found [ none ↦ (c', failed) | some r ↦ (c', read_answer r) ]

  -- What a 401 leads to: a refresh, and the same call again if that gave a token.
  unfoldable pub on_unauthorized :
      Client → Response Value → String → Dict String → Init → Client × Outcome Value
  unfolding refresh api_again read_answer
  on_unauthorized c r path headers init =
      let (c', ok) = refresh c in
      elim ok [
        | none ↦ (c', failed)
        | some fresh ↦
            (let again = api_again c' path headers init in
              if fresh then again else (c', read_answer r))
      ]

  -- `api(path, init)`
  unfoldable pub api : Client → String → Dict String → Init → Client × Outcome Value
  unfolding ask on_unauthorized read_answer headers_of
  api c path headers init =
      let (c', found) = ask c (call_of c path headers init) in
      elim found [
        | none ↦ (c', failed)
        | some r ↦
            if r.status == 401 then on_unauthorized c' r path headers init else (c', read_answer r)
      ]
