-- ===== src/Tests/Network.antt =====
-- The REST client with a server that fails twice, and image events.
use cbdynclusterd.Prelude.{ℕ, zero, suc, none, [], ◌∷◌, ◌≡◌, refl, arith}
use cbdynclusterd.Prelude.Int.{pos}
use cbdynclusterd.Prelude.Result.{ok}
use cbdynclusterd.Docker.{EventStream}
use cbdynclusterd.Rest.{
  RestCall, HttpResponse, Net, get_response, read_response, unstop, rest_retryer,
}
use cbdynclusterd.Rest.Laws.{outcome, calls, Decides, rest_retryer-Decides}

-- It says 400 while the count is below 2, and 200 from then on.
abbrev answer : ℕ → HttpResponse
answer zero = record { status_code = 400; body = "wait"; read_error = none }
answer (suc zero) = record { status_code = 400; body = "wait"; read_error = none }
answer (suc (suc n)) = record { status_code = 200; body = "done"; read_error = none }

abbrev net : Net
net = record { World = ℕ; send = λ req n. (ok (answer n), suc n); show_request = λ req. req.url }

abbrev call : RestCall
call = record {
  expected_code = 200;
  retry_on_code = 400;
  method = "POST";
  path = "/settings/web";
  cred = record {
    username = "Administrator";
    password = "password";
    hostname = "10.0.0.7";
    port = pos 8091;
  };
  body = "port=SAME";
  header = [];
  content_type = "";
}

retried : rest_retryer 5 (get_response net) call 0 ≡ (ok "done", 3)
unfolding rest_retryer get_response read_response unstop
retried = refl

rest_retryer-Decides_example :
    (k : ℕ) × Decides (get_response net) call 5 0 k
    × (rest_retryer 5 (get_response net) call 0
        ≡ (unstop (outcome (get_response net) call k 0), calls (get_response net) call (suc k) 0))
rest_retryer-Decides_example = rest_retryer-Decides (get_response net) call 5 0 (omega arith)

abbrev busy : HttpResponse
busy = record { status_code = 400; body = "wait"; read_error = none }

abbrev events : EventStream
events = ok (record { error = "" }) ∷ ok (record { error = "no space left" }) ∷ []
