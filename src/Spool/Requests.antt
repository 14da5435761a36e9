-- ===== src/Spool/Requests.antt =====
-- The calls of `PeerSpool` and `PeerService` in src/swarph_cli/peer_executor.py that write files, each
-- cut short by a crash at any point, and the runs that they make up.
use swarph_cli.Prelude.{ℕ, String, Bool, List, [], if◌then◌else◌, take}
use swarph_cli.Prelude.Python.{Fields}
use swarph_cli.Spool.Files.{PeerSpool, Write, write_all}
use swarph_cli.Spool.Claims
use swarph_cli.Spool.Results

pub data Request : Type 0 where
  enqueue : Fields → Request
  claim : String → String → ℕ → Request
  reclaim : String → String → ℕ → Request
  write_output : String → String → ℕ → String → Request
  produce_receipt : String → String → ℕ → String → Fields → String → String → Request
  accept_receipt : Fields → Request

-- A call through `PeerService`, which adds its own peer.
pub data ServiceCall : Type 0 where
  claim : String → ℕ → ServiceCall
  reclaim : String → ℕ → ServiceCall
  write_output : String → ℕ → String → ServiceCall
  accept_receipt : Fields → ServiceCall
  produce_receipt : String → ℕ → String → Fields → String → String → ServiceCall

-- `require_service` of the platform returns or raises.
pub record PeerService : Type 0 where
  pub peer : String
  pub require_service : String → Bool

unfoldable pub request_of : String → ServiceCall → Request
request_of peer (ServiceCall.claim id now) = Request.claim id peer now
request_of peer (ServiceCall.reclaim id now) = Request.reclaim id peer now
request_of peer (ServiceCall.write_output id token text) = Request.write_output id peer token text
request_of peer (ServiceCall.accept_receipt r) = Request.accept_receipt r
request_of peer (ServiceCall.produce_receipt id token text ref payload envelope) =
    Request.produce_receipt id peer token text ref payload envelope

module _ (sha256 : String → String) where
  unfoldable pub writes : Request → PeerSpool → List Write
  writes (Request.enqueue job) s = (Claims.enqueue job s).1
  writes (Request.claim id peer now) s = (Claims.claim id peer now s).1
  writes (Request.reclaim id peer now) s = (Claims.reclaim id peer now s).1
  writes (Request.write_output id peer token text) s =
      (Results.write_output sha256 id peer token text s).1
  writes (Request.produce_receipt id peer token text ref payload envelope) s =
      (Results.produce_receipt sha256 id peer token text ref payload envelope s).1
  writes (Request.accept_receipt r) s = (Results.accept_receipt sha256 r s).1

  -- `_authorize` comes before every call.
  unfoldable pub service_writes : PeerService → ServiceCall → PeerSpool → List Write
  service_writes service call s =
      if service.require_service service.peer then writes (request_of service.peer call) s else []

  -- The spool after the first `n` writes of a call; all of them, where `n` is as many.
  unfoldable pub cut : ℕ → Request → PeerSpool → PeerSpool
  cut n r s = write_all (take n (writes r s)) s

  -- What calls may leave, each finished or cut.
  pub data Run (s : PeerSpool) : PeerSpool → Type 0 where
    here : Run s s
    next : {t : PeerSpool} (n : ℕ) (r : Request) → Run s t → Run s (cut n r t)
