-- ===== src/App/Server.antt =====
-- Esp32Sniffer/components/tcp_server/tcp_server.c: `tcp_server_task`, over what the socket calls answer.
pub mod Laws
use wifi_sniffer.Prelude.{
  ℕ, Bool, true, false, Option, none, some, List, [], ◌∷◌, ◌++◌, if◌then◌else◌,
}
use wifi_sniffer.Prelude.Results.{Exec, pure, modify, ◌>>=◌, ◌>>◌}

-- What `accept` returns: an error, or a socket and whether its peer has an IPv4 address.
pub data Accepted : Type 0 where
  failed : Accepted
  client : ℕ → Bool → Accepted

-- What the calls before the loop return: `socket`, or its error; whether `bind` and `listen` return 0.
pub record Listening : Type 0 where
  pub listen_sock : Option ℕ
  pub bound : Bool
  pub listens : Bool

module _ {S : Type 0} (on_socket_accept : Option (ℕ → Exec S (Unit {0}))) where
  -- The peer's address is only logged.
  unfoldable pub on_accept : ℕ → Exec S (Unit {0})
  on_accept sock = elim on_socket_accept as (λ _. Exec S (Unit {0})) [
    | none ↦ pure tt
    | some f ↦ f sock
  ]

  -- What comes of the keep-alive options is only logged, and the loop goes on after an error.
  unfoldable pub accepted : Accepted → Exec S (Unit {0})
  unfolding on_accept
  accepted failed = pure tt
  accepted (client sock is_inet) = if is_inet then on_accept sock else pure tt

  -- The rounds of the loop up to now.
  unfoldable pub accept_loop : List Accepted → Exec S (Unit {0})
  unfolding accepted
  accept_loop [] = pure tt
  accept_loop (a ∷ xs) = accepted a >> accept_loop xs

  -- The sockets that the task closes itself; it ends exactly if one of the calls fails.
  unfoldable pub tcp_server_task :
      Listening → (ℕ → Exec S (Unit {0})) → List Accepted → Exec S (Unit {0})
  unfolding accept_loop
  tcp_server_task l close xs = elim l.listen_sock as (λ _. Exec S (Unit {0})) [
    | none ↦ pure tt
    | some sock ↦ if l.bound then (if l.listens then accept_loop xs else close sock) else close sock
  ]
