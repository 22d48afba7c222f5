-- ===== src/Tests/Calls.antt =====
-- The agent's HTTP client at concrete inputs.
use phantom_skills.Prelude.{
  ℕ, ◌≤◌, ◌<◌, ◌≡◌, refl, true, none, some, [], ◌∷◌, ◌++◌, length, take, drop, codes, pos,
}
use phantom_skills.Text.{Text, trim_right, trim_space}
use phantom_skills.Text.Decimal.{format_int}
use phantom_skills.Client.Http.{
  Transport, Envelope, Json, raw, done, Client, new_client, headers_for, do_raw, list_path,
  do_raw-done,
}

-- An encoding with the length of the code in front.
abbrev framed : Envelope → Text
framed e = length e.code ∷ e.code ++ e.message

abbrev json : Json
json = record {
  marshal = λ e. some (framed e);
  unmarshal =
      λ t. elim t [ [] ↦ none | n ∷ s ↦ some (record { code = take n s; message = drop n s }) ];
}

abbrev missing : Envelope
missing = record { code = codes "NOT_FOUND"; message = codes "no such skill: lint" }

abbrev client : Client
client = record { base_url = codes "http://h:9997"; token = codes "s3cret" }

client_new : new_client (codes "http://h:9997//") (codes "s3cret") ≡ some client
unfolding new_client trim_right trim_space
client_new = refl

paged :
    list_path (codes "draft") [] (pos 7) (pos 0)
    ≡ codes "/api/skills/skills?status=draft&after_id=7"
unfolding list_path format_int
paged = refl

-- Every request is answered with that error.
abbrev refusing : Transport
refusing = record { builds = λ u. true; send = λ r. some (404, framed missing) }

abbrev serving : Transport
serving = record { builds = λ u. true; send = λ r. some (201, codes "{}") }

abbrev path : Text
path = codes "/api/skills/skills/lint"

served :
    do_raw json serving client "POST" path (some (codes "{}")) (raw (λ t. t))
    ≡ done (some (codes "{}"))
unfolding do_raw
served = refl

do_raw-done_example :
    (status : ℕ) × (text : Text) × (serving.send (record {
      method = "POST";
      url = client.base_url ++ path;
      headers = headers_for client (some (codes "{}"));
      body = some (codes "{}");
    })
      ≡ some (status, text))
    × (200 ≤ status)
    × (status < 300)
do_raw-done_example =
    do_raw-done json serving client "POST" path (some (codes "{}")) (raw (λ t. t))
      (some (codes "{}")) served
