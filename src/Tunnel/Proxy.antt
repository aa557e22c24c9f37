-- ===== src/Tunnel/Proxy.antt =====
-- proxyUser of internal/tunnel/server.go and handleStream of internal/tunnel/client.go: one user connection.
pub mod Streams
use passage.Base.{ℕ, Bool, Bytes, List, Map, Option, some, none, lookup, Result, ok, err}
use passage.Go.Channel.{Chan, try_send, receive}
use passage.Go.Io.{Conn}
use passage.Proto.Messages.{Open, type_open}
use passage.Proto.Framing.{Json, ProtoError, write_message, read_message}
use passage.Config.Types.{ServiceEntry}

pub data ProxyResult : Type 0 where
  max_streams_reached open_stream_failed : ProxyResult
  open_header_failed : ProtoError → ProxyResult
  relayed : ℕ → ProxyResult

-- What a call of proxyUser leaves: the semaphore, how it ended, and the stream, if one was opened.
pub record Proxied : Type 0 where
  pub stream_sem : Chan
  pub result : ProxyResult
  pub stream : Option Conn

module _ (j : Json Open) where
  abbrev header_result : ℕ → Result ProtoError (Unit {0}) → ProxyResult
  header_result sid (ok _) = relayed sid
  header_result sid (err e) = open_header_failed e

  -- After the slot is taken: OpenStream may fail; otherwise the header is written, and then the bytes are relayed.
  unfoldable pub open_stream : ServiceEntry → Option (ℕ × Conn) → ProxyResult × Option Conn
  open_stream svc none = (open_stream_failed, none)
  open_stream svc (some (sid, conn)) =
      let (r, conn') =
        write_message j
          (record { message_type = type_open; stream_id = sid; service_name = svc.name }) conn in
      (header_result sid r, some conn')

  abbrev with_slot : ServiceEntry → Option (ℕ × Conn) → Chan → Option Chan → Proxied
  with_slot svc opened sem none = record {
    stream_sem = sem;
    result = max_streams_reached;
    stream = none;
  }
  with_slot svc opened sem (some held) =
      let (r, conn) = open_stream svc opened in
      record { stream_sem = receive held; result = r; stream = conn }

  -- `opened` is what yam.OpenStream returns, if it is called.
  unfoldable pub proxy_user : Chan → ServiceEntry → Option (ℕ × Conn) → Proxied
  unfolding open_stream try_send receive
  proxy_user sem svc opened = with_slot svc opened sem (try_send sem)

  -- What the client does with a stream: the local address that it dials, if it does.
  abbrev target_of : Map Bytes → Result ProtoError Open → Option Bytes
  target_of services (err e) = none
  target_of services (ok open_msg) = lookup open_msg.service_name services

  unfoldable pub handle_stream : Map Bytes → Conn → Option Bytes
  handle_stream services stream = target_of services (read_message j stream).0
