-- ===== src/Examples/Strangers.antt =====
-- The session of another client, which a connection leaves alone.
use passage.Examples.Links.{dialling, link, incoming, shared, limits, always_free}
use passage.Examples.Clients.{client, yamux_defaults}
use passage.Examples.Handshakes.{key, tables, alice}
use passage.Tunnel.Control.Established.{established}
use passage.Examples.Toy.{toy_open, toy_ed, toy_pq, toy_codecs}
use passage.Base.{
  ◌∷◌, [], Bytes, arith, some, ◌≡◌, codes, refl, lookup, same, ◌⊎◌, same_iff, Any, List, ℕ, delete,
}
use passage.Tunnel.Control.History.{Event, connects, ends, history, step, Opens, history-Opens}
use passage.Examples.Settings.{certificate}
use passage.Examples.Sessions.{state}
use passage.Tunnel.Control.{Shared, handle_control}
use passage.Tunnel.Control.Authorized.{IsAdmitted, handle_control-IsAdmitted}
use passage.Tunnel.Tls.{server_settings}
use passage.Tunnel.Sessions.Others.{IsKeyed}
use passage.Tunnel.Handshake.{Admitted}
use passage.Tunnel.Sessions.{close_session, remove_session, delete_current}
use passage.Config.Client.{service_names}
use passage.Tunnel.Sessions.Replacement.{wanted}

abbrev bob : Bytes
bob = codes "bob"

-- A session of another client.
abbrev of_bob : Shared
of_bob = record shared {
  sessions = record {
    sessions = (bob, 1) ∷ [];
    store = λ r. record (state.store 1) { client_id = bob };
  };
}

of_bob-IsKeyed : IsKeyed of_bob.sessions
unfolding IsKeyed lookup
of_bob-IsKeyed x r h = ground (arith, same_iff bob x)

handle_control-IsAdmitted_example :
    ((lookup bob
          (handle_control toy_codecs toy_ed toy_pq yamux_defaults always_free
            (server_settings certificate)
            limits
            tables
            2
            incoming
            of_bob).sessions.sessions
        ≡ some 1)
      × ((handle_control toy_codecs toy_ed toy_pq yamux_defaults always_free
              (server_settings certificate)
              limits
              tables
              2
              incoming
              of_bob).sessions.store
            1
          ≡ of_bob.sessions.store 1))
    ⊎ ((who : Admitted) × IsAdmitted toy_codecs toy_ed toy_pq yamux_defaults
          (server_settings certificate)
          limits
          tables
          incoming
          who
        × (who.0 ≡ bob))
unfolding lookup same
handle_control-IsAdmitted_example =
    handle_control-IsAdmitted toy_codecs toy_ed toy_pq yamux_defaults always_free
      (server_settings certificate) limits tables 2 incoming of_bob bob 1 of_bob-IsKeyed refl
      (λ e. ground arith)

-- A table without sessions.
abbrev nobody : Shared
nobody = record shared { sessions = record { sessions = []; store = state.store } }

abbrev visit : List (Event ℕ)
visit = ends bob 1 ∷ (connects 2 incoming ∷ [])

alice_enters :
    lookup alice
      (history toy_codecs toy_ed toy_pq yamux_defaults always_free
        (server_settings certificate)
        limits
        tables
        visit
        nobody).sessions.sessions
    ≡ some 2
unfolding history step close_session remove_session delete_current delete lookup same service_names
    wanted
alice_enters =
    (established (λ cert. cert) toy_codecs toy_open toy_ed toy_pq yamux_defaults always_free limits
      certificate tables client dialling incoming key 5 2
      (step toy_codecs toy_ed toy_pq yamux_defaults always_free (server_settings certificate) limits
        tables (ends bob 1) nobody)
      link refl (λ e. ground arith) (refl, tt)).2

history-Opens_example :
    Any
      (Opens toy_codecs toy_ed toy_pq yamux_defaults always_free
        (server_settings certificate)
        limits
        tables
        alice
        2)
      visit
unfolding lookup
history-Opens_example =
    history-Opens toy_codecs toy_ed toy_pq yamux_defaults always_free (server_settings certificate)
      limits tables visit nobody alice 2 refl alice_enters
