-- ===== src/Engine/Connection/Contract.antt =====
-- What a connection promises: its bounds and its balance, after each of its methods.
use rload.Prelude.{ℕ, Bool, add64}
use rload.Engine.Limits.{ConnectionLimit}
use rload.Engine.Outside.{Outside}
use rload.Engine.Action.Keeps.{Ends}
use rload.Engine.Connection.{Connection, write_request}
use rload.Engine.Connection.Sound.{Obeys, Stands, write_request-Keeps}
use rload.Engine.Connection.Reading.{finish_response}
use rload.Engine.Connection.Recovery.{retry_address, recover_request}
use rload.Engine.Connection.Recovered.{
  Failed, TriedAgain, retry_address-Meets, recover_request-Meets,
}
use rload.Engine.Connection.Finished.{Finished, finish_response-Meets}

module _ (out : Outside) where
  module _ (l : ConnectionLimit) (n : ℕ) (d : Bool) (c : Connection out) (w : out.World)
      (stands : Stands l n d c) where
    -- Retrying on another address ends. Where it answers that it went on, the connection is done
    -- if and only if it was; where it gave up, a connection with a fixed limit is done. Limit and
    -- count stay, no more than three recovery attempts are counted, and the address is one of the
    -- list.
    pub retry_address_lem :
        (token : ℕ)
        → Ends
            (TriedAgain out l n d)
            (Stands l n d)
            ⊥
            (retry_address out token c w).0
            (retry_address out token c w).1
    retry_address_lem token = (retry_address-Meets out l n d token).at c w stands

    -- Recovering a request ends. Where it answers that it went on, the connection is done if and
    -- only if it was; where it gave up, a connection with a fixed limit is done, and one with a
    -- deadline is done if and only if it was. Limit and count stay in both cases; after an error
    -- the connection may have become done. No more than three recovery attempts are counted, and
    -- the address is one of the list.
    pub recover_request_lem :
        (token : ℕ)
        → Ends
            (TriedAgain out l n d)
            (Failed out l n d)
            ⊥
            (recover_request out token c w).0
            (recover_request out token c w).1
    recover_request_lem token = (recover_request-Meets out l n d token).at c w stands

  module _ (obeys : Obeys out) (l : ConnectionLimit) (n : ℕ) (d : Bool) (c : Connection out)
      (w : out.World) (stands : Stands l n d c) where
    -- Where a write takes no more bytes than it is offered, writing a request ends, and however it
    -- ends the write offset stays within the request, and the limit, the count of completed
    -- requests and the done flag stay.
    pub write_request_lem :
        Ends
          (λ u. Stands l n d)
          (Stands l n d)
          ⊥
          (write_request out c w).0
          (write_request out c w).1
    write_request_lem = (write_request-Keeps out obeys l n d).at c w stands

    -- Where a write takes no more bytes than it is offered, finishing a response ends and counts
    -- one response more (modulo 2^64); if it succeeds, a connection with a limit of requests is
    -- ended exactly if the new count is not below the limit, it is then done, and otherwise done
    -- if and only if it was.
    pub finish_response_lem :
        (connection_close : Bool) (token : ℕ)
        → Ends
            (Finished out l (add64 n 1) d)
            (Failed out l (add64 n 1) d)
            ⊥
            (finish_response out connection_close token c w).0
            (finish_response out connection_close token c w).1
    finish_response_lem connection_close token =
        (finish_response-Meets out obeys l n d connection_close token).at c w stands
