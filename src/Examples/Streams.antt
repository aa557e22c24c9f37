-- ===== src/Examples/Streams.antt =====
-- Frames, streams, delays and a pinned certificate at concrete inputs.
use passage.Base.{
  Bytes, codes, ◌≡◌, ok, [], ◌∷◌, All, arith, if◌then◌else◌, none, some, true, ◌++◌, ◌+◌, ◌^◌,
  is_empty, refl, has_prefix, lookup,
}
use passage.Base.Int.{pos, ltb_ℤ}
use passage.Examples.Toy.{toy_open, put_field}
use passage.Examples.Handshakes.{web, web_entry}
use passage.Go.Io.{Conn, write}
use passage.Config.Types.{ReconnectConfig}
use passage.Go.Channel.{Chan}
use passage.Proto.Framing.{frame, write_message, read_message}
use passage.Proto.Framing.Limits.{Reads, read_message-Reads}
use passage.Proto.Messages.{Open, type_open, max_message_size}
use passage.Tunnel.Backoff.{next_backoff, run_delays, failed}
use passage.Tunnel.Backoff.Bounds.{IsDelay, next_backoff-overflow, run_delays-IsDelay}
use passage.Tunnel.Cidr.{Netip}
use passage.Tunnel.Handshake.Completes.{Carries}
use passage.Tunnel.Proxy.{proxy_user, relayed, handle_stream}
use passage.Go.Endian.{put_uint32}
use passage.Proto.Framing.RoundTrip.{read_message-write_message}
use passage.Tunnel.Proxy.Streams.{proxy_user-handle_stream}

abbrev message : Open
message = record { message_type = type_open; stream_id = 7; service_name = web }

abbrev body : Bytes
body = 7 ∷ put_field type_open web

abbrev fresh : Conn
fresh = record { incoming = []; outgoing = []; writes_left = 2 }

abbrev pub peer : Conn
peer = record { incoming = frame body ++ codes "rest"; outgoing = []; writes_left = 0 }

read_message-write_message_example :
    read_message toy_open peer ≡ (ok message, record peer { incoming = codes "rest" })
unfolding write_message write frame put_uint32
read_message-write_message_example =
    read_message-write_message toy_open message body (codes "rest") fresh
      (record { incoming = []; outgoing = frame body; writes_left = 0 }) peer refl refl
      (omega arith) refl refl refl

read_message-Reads_example : Reads (4 + max_message_size) peer (read_message toy_open peer).1
read_message-Reads_example = read_message-Reads toy_open peer

abbrev sem : Chan
sem = record { capacity = 1; sent = 0 }

open_carried : Carries toy_open message body
open_carried = record { encoded = refl; decoded = refl; fits = omega arith }

proxy_user-handle_stream_example :
    ((proxy_user toy_open sem web_entry (some (7, fresh))).result ≡ relayed 7)
    × ((proxy_user toy_open sem web_entry (some (7, fresh))).stream
        ≡ some (record fresh { outgoing = frame body; writes_left = 0 }))
    × (handle_stream toy_open ((web, codes "127.0.0.1:80") ∷ []) peer
        ≡ lookup web ((web, codes "127.0.0.1:80") ∷ []))
proxy_user-handle_stream_example =
    proxy_user-handle_stream toy_open sem web_entry 7 fresh peer body (codes "rest") 0
      ((web, codes "127.0.0.1:80") ∷ []) (omega arith) open_carried refl refl refl

-- Prefixes and addresses that are their texts: a prefix contains the addresses that it begins.
abbrev pub textual : Netip Bytes Bytes
textual = record {
  parse_prefix = λ c. if is_empty c then none else some c;
  parse_addr = λ a. if is_empty a then none else some a;
  contains = has_prefix;
}

abbrev reconnect : ReconnectConfig
reconnect = record { initial_backoff = pos 4; max_backoff = pos 16; jitter = true }

run_delays-IsDelay_example :
    All (IsDelay reconnect) (run_delays reconnect (failed (pos 3) ∷ (failed (pos 7) ∷ [])))
unfolding next_backoff
run_delays-IsDelay_example =
    run_delays-IsDelay reconnect (failed (pos 3) ∷ (failed (pos 7) ∷ [])) (omega arith)
      (omega arith) (omega arith) (ground arith)

next_backoff-overflow_example : ltb_ℤ (next_backoff (pos (2 ^ 62)) (pos (2 ^ 62))) (pos 0) ≡ true
next_backoff-overflow_example =
    next_backoff-overflow (2 ^ 62) (2 ^ 62) (omega arith) (omega arith) (omega arith)
