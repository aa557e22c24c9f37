-- ===== src/Tunnel/Proxy/Streams.antt =====
-- A user's connection, from the server's listener to the client's backend.
use passage.Tunnel.Proxy.{proxy_user, handle_stream, relayed, max_streams_reached}
use passage.Tunnel.Handshake.Completes.{Carries}
use passage.Proto.Framing.{Json, frame}
use passage.Proto.Messages.{Open, type_open}
use passage.Go.Channel.{Chan}
use passage.Config.Types.{ServiceEntry}
use passage.Base.{
  Option, ℕ, Bytes, ◌≡◌, Map, ◌≤◌, ◌<◌, ◌↔◌, suc, [], ◌++◌, some, lookup, arith, none,
}
use passage.Go.Io.{Conn}
use passage.Proto.Framing.RoundTrip.{write_message-frame, read_message-frame}

module _ (j : Json Open) where
  -- Every call gives back the slot that it took, and a call that finds no slot free opens no stream.
  pub proxy_user-sem :
      (sem : Chan) (svc : ServiceEntry) (opened : Option (ℕ × Conn))
      → (proxy_user j sem svc opened).stream_sem ≡ sem
        × ((sem.capacity ≤ sem.sent) ↔ ((proxy_user j sem svc opened).result ≡ max_streams_reached))
  unfolding proxy_user
  proxy_user-sem sem svc none = ground arith
  proxy_user-sem sem svc (some (sid, conn)) = ground arith

  -- A stream that the server opened for a service leads the client to the target that it has configured under that name.
  pub proxy_user-handle_stream :
      (sem : Chan) (svc : ServiceEntry) (sid : ℕ) (conn peer : Conn) (body rest : Bytes) (n : ℕ)
      (services : Map Bytes)
      → sem.sent < sem.capacity
      → Carries j
          (record { message_type = type_open; stream_id = sid; service_name = svc.name })
          body
      → conn.writes_left ≡ suc (suc n)
      → conn.outgoing ≡ []
      → peer.incoming ≡ frame body ++ rest
      → ((proxy_user j sem svc (some (sid, conn))).result ≡ relayed sid)
        × ((proxy_user j sem svc (some (sid, conn))).stream
            ≡ some (record conn { outgoing = frame body; writes_left = n }))
        × (handle_stream j services peer ≡ lookup svc.name services)
  unfolding proxy_user handle_stream
  proxy_user-handle_stream sem svc sid conn peer body rest n services free c w o i =
      let m : Open = record {
        message_type = type_open;
        stream_id = sid;
        service_name = svc.name;
      } in
      ground (
        arith,
        write_message-frame j m body conn n c.encoded c.fits w,
        read_message-frame j m body rest peer c.decoded c.fits i,
      )
