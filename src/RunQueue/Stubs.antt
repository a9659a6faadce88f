-- ===== src/RunQueue/Stubs.antt =====
-- Stand-ins for Go's packages, and a queue and a request to run: the input of the tests.
use proof_layer.Base.{
  ℕ, zero, suc, ◌≡◌, refl, String, none, some, [], ◌∷◌, String_eq, Bytes, Bytes_eq, bytes_eq, Time,
  Outcome, ok, codes, to_lower, hex, if◌then◌else◌, ◌==◌,
}
use proof_layer.Base.Int.{pos}
use proof_layer.RunQueue.Model.{QueueError, CreateRequest, Job}
use proof_layer.RunQueue.Platform.{Platform, Entropy}
use proof_layer.RunQueue.Patterns.{valid_uuid, uuid_of}
use proof_layer.RunQueue.Queue.{Queue, Config, new}

-- Stand-ins for Go's packages.
unfoldable pub stub : Platform
stub = record {
  wide_lower = λ c. c;
  marshal_request = λ r. some (codes r.scenario_id);
  marshal_job = λ body. some (codes body.job_id);
  sha256 = λ bytes. bytes;
  sign = λ key payload. 7 ∷ [];
  check_signature = λ key payload signature. bytes_eq signature (7 ∷ []);
  encode_base64 = hex;
  decode_base64 = λ s. if s == "07" then some (7 ∷ []) else none;
}

abbrev pub key_of_64 : Bytes
key_of_64 = go 64
  where
    go : ℕ → Bytes
    go zero = []
    go (suc n) = n ∷ go n

abbrev pub config : Config
config = record {
  capacity = pos 2;
  environment_id = "11111111-2222-4333-8444-55555555555A";
  host_id = "aaaaaaaa-bbbb-4ccc-8ddd-eeeeeeeeeeee";
  requested_by = "99999999-2222-4333-8444-555555555555";
  signing_key_id = "key-1";
  signing_private_key = key_of_64;
}

abbrev pub sixteen : ℕ → Bytes
sixteen n = n ∷ 1 ∷ 2 ∷ 3 ∷ 4 ∷ 5 ∷ 6 ∷ 7 ∷ 8 ∷ 9 ∷ 10 ∷ 11 ∷ 12 ∷ 13 ∷ 14 ∷ 15 ∷ []

abbrev pub entropy_of : ℕ → Entropy
entropy_of n = record {
  job_id = some (sixteen n);
  correlation = some (sixteen n);
  nonce = some (sixteen n);
}

abbrev pub start : Time
start = 63_900_000_000_000_000_000

abbrev pub or_empty : Outcome QueueError Queue → Queue
or_empty (ok q) = q
or_empty _ = record {
  capacity = 0;
  environment = "";
  host = "";
  requested_by = "";
  key_id = "";
  private_key = [];
  jobs = [];
  records = [];
  lifecycle = [];
  history_order = [];
  history_by_host = [];
  history_by_scenario = [];
}

unfoldable pub empty_queue : Queue
unfolding new stub valid_uuid to_lower
empty_queue = or_empty (new stub config)

pub test_new : new stub config ≡ ok empty_queue
unfolding empty_queue
test_new = refl

abbrev pub marker_request : CreateRequest
marker_request = record {
  schema_version = "1.0";
  environment_id = "11111111-2222-4333-8444-55555555555a";
  host_id = "AAAAAAAA-bbbb-4ccc-8ddd-eeeeeeeeeeee";
  scenario_id = "windows-process-marker";
  scenario_version = "0.1.0";
}

abbrev pub request_key : String
request_key = "abcdefghijklmnopqrstuv"

abbrev pub job_id_0 : String
job_id_0 = "00010203-0405-4607-8809-0a0b0c0d0e0f"

test_id : uuid_of (sixteen 0) ≡ job_id_0
unfolding uuid_of
test_id = refl

-- Stands where no job is found.
abbrev pub blank_job : Job
blank_job = record {
  body = record {
    schema_version = "";
    job_id = "";
    correlation_id = "";
    environment_id = "";
    host_id = "";
    scenario_id = "";
    scenario_version = "";
    requested_by = "";
    requested_at = 0;
    expires_at = 0;
    nonce = "";
    parameters = [];
  };
  signature = record { algorithm = ""; key_id = ""; value = "" };
}
