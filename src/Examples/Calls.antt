-- ===== src/Examples/Calls.antt =====
-- Activations and requests against a small server.
use tamga_go.Json.{object, text_at}
use tamga_go.Http.{post, get}
use tamga_go.Client.Laws.Adding.{Adds}
use tamga_go.Client.Laws.Carrying.{IsSent, decode_json_api-Sends}
use tamga_go.Errors.{err_fingerprint_taken, new_api_error_from_response, api, GoError}
use tamga_go.Machine.{Activation, activate_machine}
use tamga_go.Errors.Matching.{is_api}
use tamga_go.Examples.{
  History, Wire, env_of, wire_of, a_client, a_request, some_options, machine_with,
}
use tamga_go.Base.{ℕ, suc, ◌≡◌, ◌≤◌, ◌<◌, refl, true, Option, none, some, [], ◌∷◌, arith}
use Prim.Native.Nat.{min, ◌^◌, ◌*◌, ◌+◌}
use tamga_go.Text.{codes, ◌==◌}
use tamga_go.Client.{apply, set_header}
use tamga_go.Client.Retry.{retry_delay, second, do_with, is_retryable}
use tamga_go.Client.Laws.Rounds.{Sends, do_with-Sends, retry_delay_bounds}
use tamga_go.Client.Laws.Sending.{KeepsMethod}
use tamga_go.Client.Decode.{decode_json_api}
use tamga_go.Machine.Laws.Limits.{Reported, activate_machine-Reported}
use tamga_go.Machine.Laws.Rollback.{RollsBack, deletes, activate_machine-RollsBack}
use tamga_go.Machine.Reactivate.{activate_machine_idempotent}
use tamga_go.Machine.Reactivate.Laws.{activate_machine_idempotent-Names}
use tamga_go.Machine.Reactivate.Deletes.{activate_machine_idempotent-deletes}

a_client-KeepsMethod : KeepsMethod (env_of 200) a_client
unfolding apply set_header
a_client-KeepsMethod req = refl

activate_machine-RollsBack_example : RollsBack [] (
    activate_machine
      (env_of 200)
      (wire_of (codes "TOO_MANY_CORES") 1 [])
      a_client
      some_options
      none
      [])
activate_machine-RollsBack_example =
    activate_machine-RollsBack (env_of 200) (wire_of (codes "TOO_MANY_CORES") 1 []) a_client
      a_client-KeepsMethod some_options none []

activate_machine-Reported_example :
    Reported
      (activate_machine
        (env_of 200)
        (wire_of (codes "TOO_MANY_CORES") 1 [])
        a_client
        some_options
        none
        []).1
activate_machine-Reported_example =
    activate_machine-Reported (env_of 200) (wire_of (codes "TOO_MANY_CORES") 1 []) a_client
      some_options none []

do_with-Sends_example :
    Sends 4
      (is_retryable get (codes "/v1/x"))
      a_request
      []
      (do_with (env_of 429) a_client a_client.http_client a_request [])
do_with-Sends_example = do_with-Sends (env_of 429) a_client a_client.http_client a_request []

retry_delay_bounds_example :
    (retry_delay 9 none 5 ≤ 60 * second)
    × (◌≡◌ {A = Option ℕ} none none → 2 ^ min 9 5 * second ≤ retry_delay 9 none 5)
    × (◌≡◌ {A = Option ℕ} none none → retry_delay 9 none 5 < 2 ^ min 9 5 * second + second)
    × ((secs : ℕ) → none ≡ some secs → retry_delay 9 none 5 ≡ min secs 60 * second)
retry_delay_bounds_example = retry_delay_bounds 9 none 5 (omega arith)

activate_machine_idempotent-deletes_example :
    (deletes
        (activate_machine_idempotent
          (env_of 200)
          (wire_of (codes "TOO_MANY_CORES") 1 [])
          a_client
          1
          some_options
          none
          []).0
      ≡ deletes
          (activate_machine
            (env_of 200)
            (wire_of (codes "TOO_MANY_CORES") 1 [])
            a_client
            some_options
            none
            []).0)
    × (deletes
          (activate_machine_idempotent
            (env_of 200)
            (wire_of (codes "TOO_MANY_CORES") 1 [])
            a_client
            1
            some_options
            none
            []).0
        ≤ suc (deletes []))
activate_machine_idempotent-deletes_example =
    activate_machine_idempotent-deletes (env_of 200) (wire_of (codes "TOO_MANY_CORES") 1 [])
      a_client 1 a_client-KeepsMethod some_options none []

-- The server refuses the creation, then lists the machine that has the fingerprint.
abbrev listing : Wire
listing = wire_of [] 1 (machine_with (codes "fp") ∷ [])

abbrev conflict : GoError
conflict = api (record {
  err = record {
    source = none;
    meta = [];
    id = [];
    status = [];
    code = codes "FINGERPRINT_TAKEN";
    title = [];
    detail = [];
  };
  response = record { tamga_version = []; tamga_edition = []; tamga_mode = []; request_id = [] };
  http_status = 409;
})

abbrev adopted : History × Activation
adopted = activate_machine_idempotent (env_of 409) listing a_client 1 some_options none []

activate_machine-refused :
    (activate_machine (env_of 409) listing a_client some_options none []).1.error ≡ some conflict
unfolding activate_machine ◌==◌ new_api_error_from_response
activate_machine-refused = refl

conflict-taken : is_api err_fingerprint_taken conflict ≡ true
unfolding is_api ◌==◌
conflict-taken = refl

adopts : adopted.1.machine ≡ some (machine_with (codes "fp"))
unfolding activate_machine_idempotent ◌==◌ new_api_error_from_response text_at
adopts = refl

activate_machine_idempotent-Names_example :
    (machine_with (codes "fp")).attributes.fingerprint ≡ codes "fp"
activate_machine_idempotent-Names_example =
    activate_machine_idempotent-Names (env_of 409) listing a_client 1 some_options none [] conflict
      activate_machine-refused conflict-taken (machine_with (codes "fp")) adopts

decode_json_api-Sends_example :
    Adds
      (IsSent (env_of 429) a_client post (codes "/machines") (some (object [])))
      []
      (decode_json_api
        (env_of 429)
        (λ b. some b)
        a_client
        post
        (codes "/machines")
        (some (object []))
        []).0
decode_json_api-Sends_example =
    decode_json_api-Sends (env_of 429) a_client post (codes "/machines") (some (object []))
      (λ b. some b) [] tt
