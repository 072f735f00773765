-- ===== src/Tests/Playing.antt =====
-- The playground against a server that loads its model within a minute.
use inference_x.Prelude.{
  ℕ, ◌+◌, ◌≤◌, ◌≡◌, ◌⊎◌, refl, String, true, false, Option, none, some, [], ◌∷◌, arith, leb, str_eq,
  if◌then◌else◌,
}
use inference_x.Playground.Polling.{Ended, HealthReply, healthy, unreachable, wait_for_model}
use inference_x.Playground.Polling.Returns.{Found, wait_for_model-returns}
use inference_x.Playground.UrlGuard.{
  ParsedUrl, IpAddress, Network, validate_base_url, hostname_is_blocked, resolved_is_blocked,
  address_is_blocked, ip_is_blocked,
}
use inference_x.Playground.UrlGuard.Guards.{ExternalHost, validate_base_url-ExternalHost}
use inference_x.Playground.Servers.{Url, Servers}
use inference_x.Playground.Compare.{Prompt, is_loaded, run_compare_sequential}
use inference_x.Playground.Compare.Complete.{Compared, run_compare_sequential-Compared}

-- It answers within a tenth of a second, and lists its model from the fifth second on.
abbrev slow_server : ℕ → ℕ × HealthReply
slow_server t = (100, if leb 5000 t then healthy ("small" ∷ []) else unreachable)

wait_for_model-returns_example :
    (r : Ended × ℕ) × (wait_for_model slow_server "small" 60000 2000 0 ≡ some r)
    × (r.1 ≤ 0 + 60000 + 100)
    × Found slow_server "small" (0 + 60000) r
wait_for_model-returns_example =
    wait_for_model-returns slow_server "small" 60000 2000 0 100 (omega arith) (λ t. omega arith)

abbrev public_address : IpAddress
public_address = record { is_private = false; is_link_local = false; is_loopback = false }

-- Texts are addresses here, and one name resolves.
abbrev network : Network
network = record {
  lowered = λ s. s;
  ip_address = λ s. if str_eq s "example.org" then none else some public_address;
  addresses = λ s. some ("93.184.216.34" ∷ []);
}

abbrev example_url : ParsedUrl
example_url = record { scheme = "https"; hostname = some "example.org" }

validate_base_url-ExternalHost_example :
    ((example_url.scheme ≡ "http") ⊎ (example_url.scheme ≡ "https"))
    × ((hostname : String) × (example_url.hostname ≡ some hostname) × ExternalHost network hostname)
unfolding validate_base_url hostname_is_blocked resolved_is_blocked address_is_blocked ip_is_blocked
validate_base_url-ExternalHost_example = validate_base_url-ExternalHost network example_url refl

abbrev servers : Servers
servers = record {
  loaded_models = λ url. some [];
  stops = true;
  starts = λ model port. true;
  responds = λ url. some true;
  loads = λ url model. some true;
}

abbrev base : Url
base = record { rest = "http://localhost"; port = some 8000; default_port = some 80 }

abbrev hello : Prompt
hello = record { text = "hello"; system = none; label = none }

abbrev length_answer : Prompt → Option String
length_answer p = some p.text

run_compare_sequential-Compared_example :
    Compared length_answer length_answer is_loaded
      (hello ∷ [])
      (run_compare_sequential length_answer length_answer is_loaded (hello ∷ []))
run_compare_sequential-Compared_example =
    run_compare_sequential-Compared length_answer length_answer is_loaded (hello ∷ [])
