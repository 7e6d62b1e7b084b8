-- ===== src/Service/Idempotency.antt =====
-- internal/idempotency/store.go and internal/service/idempotency.go: a response that is kept under a
-- key and given again. The digest of a request and the JSON of a response are parameters.
pub mod Replay
pub mod Keys
pub mod Create
use ufo_observation_command.Base.{
  ℕ, ℤ, String, ◌==◌, Bool, true, false, Option, none, some, List, if◌then◌else◌, Error, plain,
  wrap, sentinel, idempotency, Result, ok, err, Method, not, refuse,
}
use ufo_observation_command.Base.Methods.{◌>>=◌, ◌>>◌, return, fail, lift, map_error}

pub record IdempotencyRecord : Type 0 where
  pub key : String
  pub request_hash : String
  pub response_code : ℤ
  pub response_body : String

pub record IdempotencyStore (W : Type 0) : Type 0 where
  pub get_record : String → Method W (Option IdempotencyRecord)
  pub put_record : IdempotencyRecord → Method W (Unit {0})

module _ {W T : Type 0} (store : IdempotencyStore W) (digest_hex : List ℕ → String)
    (marshal : T → Result String) (unmarshal : String → Result T) where
  unfoldable pub new_record : String → List ℕ → ℤ → T → Method W IdempotencyRecord
  new_record key body code response = do
    lift (refuse (key == "") (plain "idempotency key is required"))
    payload ← map_error (wrap "marshal response: %w") (lift (marshal response))
    return record {
      key = key;
      request_hash = digest_hex body;
      response_code = code;
      response_body = payload;
    }

  unfoldable pub matches : IdempotencyRecord → List ℕ → Bool
  matches r body = r.request_hash == digest_hex body

  -- A record that is there: its response, or the error of another request under its key.
  unfoldable pub replay : IdempotencyRecord → List ℕ → Method W (ℤ × T)
  unfolding matches
  replay r body = do
    lift (refuse (not (matches r body)) (plain "request hash differs: idempotency conflict"))
    replayed ← map_error (wrap "decode idempotent response: %w") (lift (unmarshal r.response_body))
    return (r.response_code, replayed)

  -- No record: the response is created and kept.
  unfoldable pub create_and_keep : String → List ℕ → Method W (ℤ × T) → Method W (ℤ × T)
  unfolding new_record
  create_and_keep key body create = do
    response ← create
    r ← new_record key body response.0 response.1
    store.put_record r
    return response

  unfoldable pub replay_found :
      String → List ℕ → Method W (ℤ × T) → Option IdempotencyRecord → Method W (ℤ × T)
  unfolding replay create_and_keep
  replay_found key body create none = create_and_keep key body create
  replay_found key body create (some r) = replay r body

  unfoldable pub replay_or : String → List ℕ → Method W (ℤ × T) → Method W (ℤ × T)
  unfolding replay_found
  replay_or key body create = do
    lift (refuse (key == "") (plain "idempotency key is required"))
    found ← store.get_record key
    replay_found key body create found
