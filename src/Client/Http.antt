-- ===== src/Client/Http.antt =====
-- internal/client/client.go over package net/http, with what internal/server/errors.go writes for an
-- error. JSON and the transport are parameters.
use phantom_skills.Prelude.{
  ℕ, ◌<◌, ◌*◌, ◌^◌, ◌≤◌, ◌≡◌, refl, String, Bool, not, ◌||◌, eqb, Bool-cases, inl, inr, Option,
  none, some, List, [], ◌∷◌, ◌++◌, ltb, leb, take, if◌then◌else◌, codes, arith, ℤ, pos,
}
use phantom_skills.Prelude.Int.{ltz}
use phantom_skills.Text.{Text, trim_space, trim_right, is_empty}
use phantom_skills.Text.Decimal.{format_int}

pub record HttpRequest : Type 0 where
  pub method : String
  pub url : Text
  pub headers : List (String × Text)
  pub body : Option Text

-- Whether the URL can be parsed, and what comes back: status and body, or `none` where the request
-- fails.
pub record Transport : Type 0 where
  pub builds : Text → Bool
  pub send : HttpRequest → Option (ℕ × Text)

-- The part of the error envelope that both sides use.
pub record Envelope : Type 0 where
  pub code : Text
  pub message : Text

pub record Json : Type 0 where
  pub marshal : Envelope → Option Text
  pub unmarshal : Text → Option Envelope

pub record ApiError : Type 0 where
  pub status : ℕ
  pub code : Text
  pub message : Text

pub data Fault : Type 0 where
  build_failed : Fault
  request_failed : Fault
  api_error : ApiError → Fault
  decode_failed : Fault

-- `out`: nothing, a json.RawMessage, or a value that the body is decoded into.
pub data Out (A : Type 0) : Type 0 where
  discard : Out A
  raw : (Text → A) → Out A
  decoded : (Text → Option A) → Out A

-- Success, with what was put into `out` if anything was; or an error.
pub data Reply (A : Type 0) : Type 0 where
  done : Option A → Reply A
  failed : Fault → Reply A

pub record Client : Type 0 where
  pub base_url : Text
  pub token : Text

-- `c == '/'`
abbrev pub is_slash : ℕ → Bool
is_slash c = eqb c 47

-- `New`, without the timeout.
unfoldable pub new_client : Text → Text → Option Client
unfolding trim_space trim_right
new_client base_url token =
    if is_empty (trim_space base_url)
    then none
    else some (record { base_url = trim_right is_slash base_url; token = token })

-- Without a code in an envelope the message is the body itself.
abbrev pub error_from : ℕ → Text → Option Envelope → ApiError
error_from status body none = record {
  status = status;
  code = codes "UNKNOWN";
  message = trim_space body;
}
error_from status body (some e) =
    if is_empty e.code
    then record { status = status; code = codes "UNKNOWN"; message = trim_space body }
    else record { status = status; code = e.code; message = e.message }

unfoldable pub decode_api_error : Json → ℕ → Text → ApiError
unfolding trim_space
decode_api_error j status body = error_from status body (j.unmarshal body)

abbrev pub headers_for : Client → Option Text → List (String × Text)
headers_for c body =
    content_type body
    ++ (if is_empty c.token then [] else ("Authorization", codes "Bearer " ++ c.token) ∷ [])
  where
    content_type : Option Text → List (String × Text)
    content_type none = []
    content_type (some b) = ("Content-Type", codes "application/json") ∷ []

-- `io.LimitReader(resp.Body, 8<<20)`
abbrev pub body_limit : ℕ
body_limit = 8 * 2 ^ 20

abbrev read_into : {A : Type 0} → Option A → Reply A
read_into none = failed decode_failed
read_into (some a) = done (some a)

abbrev pub accept : {A : Type 0} → Out A → Text → Reply A
accept discard body = done none
accept (raw f) body = if is_empty body then done none else done (some (f body))
accept (decoded f) body = if is_empty body then done none else read_into (f body)

abbrev pub answered : {A : Type 0} → Json → Out A → Option (ℕ × Text) → Reply A
answered j out none = failed request_failed
answered j out (some (status, body)) =
    if ltb status 200 || leb 300 status
    then failed (api_error (decode_api_error j status (take body_limit body)))
    else accept out (take body_limit body)

unfoldable pub do_raw :
    {A : Type 0} → Json → Transport → Client → String → Text → Option Text → Out A → Reply A
unfolding decode_api_error
do_raw j t c method path body out =
    let url : Text = c.base_url ++ path in
    if t.builds url
    then answered j out
        (t.send (record { method = method; url = url; headers = headers_for c body; body = body }))
    else failed build_failed

-- `WriteErrorEnvelope`: the body that goes out, where `http.Error` is the fallback.
abbrev sent_body : Envelope → Option Text → Text
sent_body e none = e.message ++ 10 ∷ []
sent_body e (some body) = body

unfoldable pub error_body : Json → Envelope → Text
error_body j e = sent_body e (j.marshal e)

-- `q` of `ListSkills`: what is left out is a nil part.
abbrev pub part : Bool → Text → Text → List Text
part given key value = if given then (key ++ value) ∷ [] else []

abbrev pub join_parts : List Text → Text
join_parts [] = []
join_parts (p ∷ []) = p
join_parts (p ∷ q ∷ ps) = p ++ b'&' ∷ join_parts (q ∷ ps)

abbrev pub path_with : Text → List Text → Text
path_with path [] = path
path_with path (p ∷ ps) = path ++ b'?' ∷ join_parts (p ∷ ps)

abbrev pub api_prefix : Text
api_prefix = codes "/api/skills"

-- The path that `ListSkills` asks for.
unfoldable pub list_path : Text → Text → ℤ → ℤ → Text
unfolding format_int
list_path status tag after_id limit = path_with (api_prefix ++ codes "/skills") (
    part (not (is_empty status)) (codes "status=") status
    ++ (part (not (is_empty tag)) (codes "tag=") tag
        ++ (part (ltz (pos 0) after_id) (codes "after_id=") (format_int after_id)
            ++ part (ltz (pos 0) limit) (codes "limit=") (format_int limit))))

-- The path that `Sync` asks for; `url.QueryEscape` is given.
unfoldable pub sync_path : (Text → Text) → Text → Text
sync_path query_escape since =
    if is_empty since
    then api_prefix ++ codes "/sync"
    else api_prefix ++ (codes "/sync?since=" ++ query_escape since)

-- What decoding an envelope gives that was encoded.
pub record ReadsBack (j : Json) : Type 0 where
  pub back : (e : Envelope) (t : Text) → j.marshal e ≡ some t → j.unmarshal t ≡ some e

module _ {A : Type 0} (j : Json) (t : Transport) (c : Client) (method : String) (path : Text)
    (body : Option Text) (out : Out A) where
  abbrev request : HttpRequest
  request = record {
    method = method;
    url = c.base_url ++ path;
    headers = headers_for c body;
    body = body;
  }

  accepted_status :
      (answer : Option (ℕ × Text)) (o : Option A)
      → answered j out answer ≡ done o
      → (status : ℕ) × (text : Text) × (answer ≡ some (status, text))
        × (200 ≤ status)
        × (status < 300)
  accepted_status none o h = absurd (ground (arith, h))
  accepted_status (some (status, text)) o h = elim (Bool-cases (ltb status 200 || leb 300 status)) [
    | inl e ↦
        let wrong : failed (api_error (decode_api_error j status (take body_limit text))) ≡ done o =
          rw e at h in
        absurd (ground (arith, wrong))
    | inr e ↦ (status, text, refl, ground (arith, e), ground (arith, e))
  ]

  -- A call succeeds only if the daemon has answered with a status from 200 to 299.
  pub do_raw-done :
      (o : Option A)
      → do_raw j t c method path body out ≡ done o
      → (status : ℕ) × (text : Text) × (t.send request ≡ some (status, text))
        × (200 ≤ status)
        × (status < 300)
  unfolding do_raw
  do_raw-done o h = elim (Bool-cases (t.builds (c.base_url ++ path))) [
    | inl e ↦ accepted_status (t.send request) o (rw e at h)
    | inr e ↦ let wrong : failed build_failed ≡ done o = rw e at h in absurd (ground (arith, wrong))
  ]
