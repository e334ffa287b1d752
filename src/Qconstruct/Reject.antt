-- ===== src/Qconstruct/Reject.antt =====
-- Which packets `apply_client` rejects.
use aprsr.Prelude.{◌<◌, true, false, All, ◌≡◌, ◌≢◌}
use aprsr.Bytes.{Bytes, eq_ignore_ascii_case}
use aprsr.Digipath.{Hop, Digipath, hops, has_tcpip}
use aprsr.Packet.{Packet}
use aprsr.Qconstruct.Code.{verified_client, internal, FoundQ}
use aprsr.Qconstruct.Apply.{QContext}

-- A construct that may stay: it is not the server-internal one, a `qAC` has passed a TCP
-- connection, and no hop behind it is this server.
pub record Allowed (path : Digipath) (ctx : QContext) (q : FoundQ) : Type 0 where
  pub propagates : q.code ≢ internal
  pub connected : q.code ≡ verified_client → has_tcpip path ≡ true
  pub elsewhere :
      All
        (λ (h : Hop). q.offset < h.offset → eq_ignore_ascii_case h.call ctx.server_id ≡ false)
        (hops path)
